-- ===== src/Outbox/Dispatch/Settled.antt =====
-- core/dispatch.go: the states in which a draft is settled.
use memgov.Base.{
  true_ne_false, ◌≡◌, refl, sym, ◌∙◌, String, true, false, List, [], ◌∷◌, contains, contains-elim,
}
use memgov.Outbox.Dispatch.Moves.{Edge, stay, hand_over, outdate, withdraw, deliver, finish, settle}

abbrev pub settled : List String
settled = "accepted" ∷ "failed" ∷ "retryable_failed" ∷ "unknown" ∷ "cancelled" ∷ []

withdrawable_unsettled :
    (s : String)
    → contains ("draft" ∷ "ready" ∷ "stale" ∷ "blocked" ∷ []) s ≡ true
    → contains settled s ≡ false
withdrawable_unsettled s h =
    contains-elim (λ t. contains settled t ≡ false) ("draft" ∷ "ready" ∷ "stale" ∷ "blocked" ∷ []) s
      (refl, (refl, (refl, (refl, tt)))) h

pending_unsettled :
    (s : String) → contains ("draft" ∷ "ready" ∷ []) s ≡ true → contains settled s ≡ false
pending_unsettled s h =
    contains-elim (λ t. contains settled t ≡ false) ("draft" ∷ "ready" ∷ []) s (refl, (refl, tt)) h

-- The edges that leave a settled state lead nowhere else.
pub settled_edge : {s t : String} → Edge s t → contains settled s ≡ true → t ≡ s
settled_edge stay k = refl
settled_edge {s = s} (hand_over h) k = absurd (true_ne_false (sym k ∙ pending_unsettled s h))
settled_edge {s = s} (outdate h) k = absurd (true_ne_false (sym k ∙ pending_unsettled s h))
settled_edge {s = s} (withdraw h) k = absurd (true_ne_false (sym k ∙ withdrawable_unsettled s h))
settled_edge (deliver h) k = absurd (true_ne_false (sym k))
settled_edge (finish h) k = absurd (true_ne_false (sym k))
settled_edge (settle h) k = absurd (true_ne_false (sym k))
