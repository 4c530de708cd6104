-- ===== src/PaymentWebhook/Invoices.antt =====
-- The invoice events of backend/internal/services/payment/webhook_handler.go, run without a fault.
use orgfin_diploma.Prelude.{
  ◌≡◌, refl, Bool, false, some, List, [], ◌∷◌, String, same_text, ◌++◌, find_first_passes,
}
use orgfin_diploma.Models.{Db, ProviderSubscription}
use orgfin_diploma.Exec.{ok, ◌>>=◌, for_each}
use orgfin_diploma.Repositories.Subscriptions
use orgfin_diploma.Repositories.Subscriptions.{find_external, change_provider, is_text}
use orgfin_diploma.Repositories.Subscriptions.Providers.{
  HasUniqueIds, find_first-change, change_provider-HasUniqueIds,
}
use orgfin_diploma.PaymentWebhook.{handle_invoice, flag_unless, flag_found}

abbrev pub flagged : Bool → ProviderSubscription → ProviderSubscription
flagged failed p = record p { last_payment_failed = failed }

module _ (x : String) (named : same_text x "" ≡ false) where
  abbrev flagged_db : Bool → ProviderSubscription → Db → Db
  flagged_db failed p s = record s { providers = change_provider (flagged failed p) s.providers }

  invoice_run :
      (failed : Bool) (s : Db) (p : ProviderSubscription)
      → find_external x s.providers ≡ some p
      → handle_invoice failed x [] s ≡ (ok tt, [], flagged_db failed p s)
  unfolding handle_invoice flag_unless flag_found Subscriptions.get_provider_by_external_id
      Subscriptions.update_provider ◌>>=◌
  invoice_run failed s p found = rw (named, found) refl

  found_flagged :
      (failed : Bool) (s : Db) (p : ProviderSubscription)
      → HasUniqueIds s.providers
      → find_external x s.providers ≡ some p
      → find_external x (flagged_db failed p s).providers ≡ some (flagged failed p)
  unfolding find_external
  found_flagged failed s p unique found =
      find_first-change (λ q. is_text x q.external_subscription_id) (flagged failed p) s.providers
        unique found refl
        (find_first_passes (λ q. is_text x q.external_subscription_id) s.providers found)

-- A series of invoice events about one Stripe subscription that is known, without a fault, leaves its
-- row as it was but for the flag of a failed payment, which is that of the last event.
pub handle_invoice-last :
    (x : String)
    → same_text x "" ≡ false
    → (earlier : List Bool) (last : Bool) (s : Db) (p : ProviderSubscription)
    → HasUniqueIds s.providers
    → find_external x s.providers ≡ some p
    → let (r, _, s') = for_each (λ failed. handle_invoice failed x) (earlier ++ (last ∷ [])) [] s in
      (r ≡ ok tt) × (find_external x s'.providers ≡ some (record p { last_payment_failed = last }))
unfolding for_each ◌>>=◌
handle_invoice-last x named [] last s p unique found =
    rw (invoice_run x named last s p found) (refl, found_flagged x named last s p unique found)
handle_invoice-last x named (f ∷ earlier) last s p unique found =
    rw (invoice_run x named f s p found) (
      handle_invoice-last x named earlier last (flagged_db x named f p s) (flagged f p)
        (change_provider-HasUniqueIds (flagged f p) s.providers unique)
        (found_flagged x named f s p unique found))
