-- ===== src/Transaction/Replay.antt =====
-- core/db.go: calls that are retried under a key.
use memgov.Base.{
  ◌≡◌, ◌≢◌, refl, sym, ap, ◌∙◌, subst, String, Bool, true, false, none, some, List, [], ◌∷◌, Result,
  ok, err, ◌>>=◌, conflict, find_row, str_eq, eq_iff, eq_refl, arith, if◌then◌else◌, Clock, now,
  after, after-elim, Option-cases, Bool-cases, inl, inr, Result-cases,
}
use memgov.Base.Table.{find_row-append}
use memgov.Transaction.{
  Request, Answer, RequestRow, Remembered, Store, Effect, same_key, new_request, remembered, memory,
  commit, execute, replay, mutate,
}

-- A call: when, under which fresh id, what was asked and what it does.
pub record Call (S O I : Type 0) : Type 0 where
  pub clock : Clock
  pub new_id : String
  pub request : Request I
  pub effect : S → Result (Effect S O)

module _ {S O I : Type 0} (digest : I → String) (marshal : O → Result String)
    (redact : S → String → Result String) where
  unfoldable pub run : Store S → List (Call S O I) → Store S
  run s [] = s
  run s (c ∷ cs) =
      run (after s (mutate digest marshal redact c.clock c.new_id c.request c.effect s)) cs

  -- A stored answer stays.
  abbrev Keeps : Store S → Store S → Type 0
  Keeps s s' =
      (p : Remembered → Bool) (r : Remembered)
      → find_row p s.idempotency ≡ some r
      → find_row p s'.idempotency ≡ some r

  execute-inv :
      (clock : Clock) (new_id : String) (req : Request I) (fn : S → Result (Effect S O))
      (s : Store S) (a : Answer) (s' : Store S)
      → execute digest marshal redact clock new_id req fn s ≡ ok (a, s')
      → (row : RequestRow) × (e : Effect S O) × (a.cached ≡ false)
        × (s' ≡ commit digest marshal redact clock req row a.raw e s)
  unfolding execute
  execute-inv clock new_id req fn s a s' h = elim (Result-cases (fn s.domain)) [
    | inr (x, k) ↦ ground arith
    | inl (e, k) ↦ elim (Result-cases (marshal e.out)) [
      | inr (x, k') ↦ ground arith
      | inl (raw, k') ↦
          let row = new_request clock new_id req e.operation in
          let (q, same) : (a ≡ record { raw = raw; cached = false })
              × (s' ≡ commit digest marshal redact clock req row raw e s) =
            ground arith in
          (row, e, rw q refl, rw q same)
    ]
  ]

  replay-inv :
      (req : Request I) (r : Remembered) (s : Store S) (a : Answer) (s' : Store S)
      → replay digest marshal redact req r s ≡ ok (a, s')
      → (s' ≡ s) × (a.cached ≡ true)
  unfolding replay
  replay-inv req r s a s' h = elim (Result-cases (redact s.domain r.result)) [
    | inr (x, k) ↦ ground arith
    | inl (raw, k) ↦
        let (same, e) : (s' ≡ s) × (a ≡ record { raw = raw; cached = true }) = ground arith in
        (same, rw e refl)
  ]

  mutate-new :
      (c : Call S O I) (s : Store S)
      → remembered digest marshal redact c.request s ≡ none
      → mutate digest marshal redact c.clock c.new_id c.request c.effect s
        ≡ execute digest marshal redact c.clock c.new_id c.request c.effect s
  unfolding mutate
  mutate-new c s n = rw (n, mutate) refl

  mutate-known :
      (c : Call S O I) (s : Store S) (r : Remembered)
      → remembered digest marshal redact c.request s ≡ some r
      → mutate digest marshal redact c.clock c.new_id c.request c.effect s
        ≡ replay digest marshal redact c.request r s
  unfolding mutate
  mutate-known c s r n = rw (n, mutate) refl

  mutate-Keeps :
      (c : Call S O I) (s : Store S) (a : Answer) (s' : Store S)
      → mutate digest marshal redact c.clock c.new_id c.request c.effect s ≡ ok (a, s')
      → Keeps s s'
  unfolding commit
  mutate-Keeps c s a s' h p r k =
      elim (Option-cases (remembered digest marshal redact c.request s)) [
        | inl n ↦
            let (row, e, _, q) =
              execute-inv c.clock c.new_id c.request c.effect s a s' (sym (mutate-new c s n) ∙ h) in
            rw q (find_row-append p s.idempotency _ ∙ rw k refl)
        | inr (m, n) ↦
            let (same, _) = replay-inv c.request m s a s' (sym (mutate-known c s m n) ∙ h) in
            subst (λ (x : Store S). find_row p x.idempotency ≡ some r) (sym same) k
      ]

  run-Keeps : (s : Store S) (cs : List (Call S O I)) → Keeps s (run s cs)
  unfolding run
  run-Keeps s [] p r h = h
  run-Keeps s (c ∷ cs) p r h =
      run-Keeps (after s (mutate digest marshal redact c.clock c.new_id c.request c.effect s)) cs p
        r
        (after-elim (λ (x : Store S). find_row p x.idempotency ≡ some r) s
          (mutate digest marshal redact c.clock c.new_id c.request c.effect s) h
          λ a s' e. mutate-Keeps c s a s' e p r h)

  remembered-named :
      (req : Request I) (s : Store S)
      → req.key ≢ ""
      → remembered digest marshal redact req s ≡ find_row (same_key req) s.idempotency
  unfolding remembered
  remembered-named req s named = ground (arith, eq_iff req.key "")

  commit-stored :
      (clock : Clock) (req : Request I) (row : RequestRow) (raw : String) (e : Effect S O)
      (s : Store S)
      → req.key ≢ ""
      → find_row (same_key req) s.idempotency ≡ none
      → (r : Remembered) × (find_row
            (same_key req)
            (commit digest marshal redact clock req row raw e s).idempotency
          ≡ some r)
        × (r.request_hash ≡ digest req.input)
        × (r.result ≡ raw)
  unfolding commit memory same_key find_row
  commit-stored clock req row raw e s named n =
      let blank : str_eq req.key "" ≡ false = ground (arith, eq_iff req.key "") in
      let kept =
        find_row-append (same_key req) s.idempotency (memory digest marshal redact clock req raw) in
      let r : Remembered = record {
        scope = req.scope;
        command = req.command;
        key = req.key;
        request_hash = digest req.input;
        result = raw;
        created_at = now clock;
      } in
      (
        r,
        kept
            ∙ rw n (
                rw (blank, memory)
                  (rw (eq_refl req.scope, eq_refl req.command, eq_refl req.key) refl)),
        refl,
        refl,
      )

  -- What a call under a key that took effect has stored.
  first-stored :
      (c : Call S O I) (s : Store S) (a : Answer) (s' : Store S)
      → mutate digest marshal redact c.clock c.new_id c.request c.effect s ≡ ok (a, s')
      → a.cached ≡ false
      → c.request.key ≢ ""
      → (r : Remembered) × (find_row (same_key c.request) s'.idempotency ≡ some r)
        × (r.request_hash ≡ digest c.request.input)
        × (r.result ≡ a.raw)
  first-stored c s a s' h fresh named =
      elim (Option-cases (remembered digest marshal redact c.request s)) [
        | inl n ↦
            let (row, e, _, q) =
              execute-inv c.clock c.new_id c.request c.effect s a s' (sym (mutate-new c s n) ∙ h) in
            let (r, found, hash, raw) =
              commit-stored c.clock c.request row a.raw e s named
                (sym (remembered-named c.request s named) ∙ n) in
            (
              r,
              ap (λ (x : Store S). find_row (same_key c.request) x.idempotency) q ∙ found,
              hash,
              raw,
            )
        | inr (m, n) ↦
            let (_, e) = replay-inv c.request m s a s' (sym (mutate-known c s m n) ∙ h) in
            absurd (let x : true ≡ false = sym e ∙ fresh in cc)
      ]

  -- A retry: the same command under the same key in the same scope.
  abbrev pub IsRetry : Request I → Request I → Type 0
  IsRetry first again =
      (again.scope ≡ first.scope) × (again.command ≡ first.command) × (again.key ≡ first.key)

  same_key-retry :
      (first again : Request I)
      → IsRetry first again
      → (t : List Remembered) → find_row (same_key again) t ≡ find_row (same_key first) t
  unfolding same_key
  same_key-retry first again (p, q, r) t = rw (p, q, r) refl

  -- Once a call under a key has taken effect, a retry at any later time, whatever calls came
  -- between and whatever its own effect would be, changes nothing: with the same input (by digest)
  -- it is answered with the first call's answer, redacted as the store then wants; with another
  -- input it is refused.
  pub key_takes_effect_once :
      (first again : Call S O I) (calls : List (Call S O I)) (s : Store S) (a : Answer)
      (s' : Store S)
      → mutate digest marshal redact first.clock first.new_id first.request first.effect s
        ≡ ok (a, s')
      → a.cached ≡ false
      → first.request.key ≢ ""
      → IsRetry first.request again.request
      → mutate digest marshal redact again.clock again.new_id again.request again.effect
          (run s' calls)
        ≡ (if str_eq (digest first.request.input) (digest again.request.input)
            then (do
              raw ← redact (run s' calls).domain a.raw
              ok (record { raw = raw; cached = true }, run s' calls))
            else err conflict)
  unfolding replay
  key_takes_effect_once first again calls s a s' h fresh named retry =
      let (r, found, hash, raw) = first-stored first s a s' h fresh named in
      let later = run-Keeps s' calls (same_key first.request) r found in
      let known =
        remembered-named again.request (run s' calls) (λ e. named (sym retry.2 ∙ e))
        ∙ same_key-retry first.request again.request retry (run s' calls).idempotency
        ∙ later in
      mutate-known again (run s' calls) r known
      ∙ rw (hash, raw)
          (elim (Bool-cases (str_eq (digest first.request.input) (digest again.request.input))) [
            | inl e ↦ rw e refl
            | inr e ↦ rw e refl
          ])
