-- ===== src/Intake/Touched.antt =====
-- core/message.go: messages under a key through updates that keep their keys and ids, and under a recall.
use memgov.Base.{
  ◌≡◌, refl, ap, ◌∙◌, subst, String, Bool, false, none, some, List, [], ◌∷◌, ◌++◌, find_row,
  update_rows, str_eq, eq_refl, Bool-cases, Option-cases, inl, inr, Clock, if◌then◌else◌,
}
use mathlib.Core.Option
use memgov.Base.Table.{find_row-update, find_row-append}
use memgov.Schema.People.{Message}
use memgov.Schema.Inbox.{Recall}
use memgov.Intake.Store.{has_key, has_id, is_recall}
use memgov.Intake.Apply.{recalled_row}

-- Updates that keep what a message is, and do not make a recalled one available.
pub record Keeps (f : Message → Message) : Type 0 where
  pub key : (m : Message) → (f m).message_key ≡ m.message_key
  pub id : (m : Message) → (f m).id ≡ m.id
  pub recalled : (m : Message) → m.availability ≡ "recalled" → (f m).availability ≡ "recalled"

pub data Touched (s : List Message) : List Message → Type 0 where
  rest : Touched s s
  touch :
      {u : List Message} (q : Message → Bool) (f : Message → Message)
      → Keeps f
      → Touched s u
      → Touched s (update_rows q f u)

pub Touched-trans : (s t u : List Message) → Touched s t → Touched t u → Touched s u
Touched-trans s t _ a rest = a
Touched-trans s t _ a (touch {u} q f k b) = touch q f k (Touched-trans s t u a b)

-- A message whose recall is known is recalled.
abbrev pub IsSettled : String → List Recall → List Message → Type 0
IsSettled key recalls messages =
    (r : Recall) (m : Message)
    → find_row (is_recall key) recalls ≡ some r
    → find_row (has_key key) messages ≡ some m
    → m.availability ≡ "recalled"

found-touch :
    (key : String) (q : Message → Bool) (f : Message → Message) (s : List Message)
    → Keeps f
    → find_row (has_key key) (update_rows q f s)
      ≡ Option.map (λ m. if q m then f m else m) (find_row (has_key key) s)
unfolding has_key
found-touch key q f s k =
    find_row-update (has_key key) q f s (λ m. ap (λ x. str_eq x key) (k.key m))

-- The message under a key stays under it, with its id.
pub found-Touched :
    (key : String) (s u : List Message) (m : Message)
    → Touched s u
    → find_row (has_key key) s ≡ some m
    → (v : Message) × (find_row (has_key key) u ≡ some v) × (v.id ≡ m.id)
found-Touched key s _ m rest found = (m, found, refl)
found-Touched key s _ m (touch {u} q f k t) found =
    let (v, e, same) = found-Touched key s u m t found in
    let moved = found-touch key q f u k in
    elim (Bool-cases (q v)) [
      | inl h ↦ (f v, rw (moved, e, h) refl, k.id v ∙ same)
      | inr h ↦ (v, rw (moved, e, h) refl, same)
    ]

pub Touched-IsSettled :
    (key : String) (recalls : List Recall) (s u : List Message)
    → Touched s u
    → IsSettled key recalls s
    → IsSettled key recalls u
Touched-IsSettled key recalls s _ rest w r m known found = w r m known found
Touched-IsSettled key recalls s _ (touch {u} q f k t) w r m known found =
    let before = Touched-IsSettled key recalls s u t w in
    let moved = found-touch key q f u k in
    elim (Option-cases (find_row (has_key key) u)) [
      | inl e ↦ absurd (let c : none ≡ some m = rw (moved, e) at found in cc)
      | inr (v, e) ↦
          let old = before r v known e in
          elim (Bool-cases (q v)) [
            | inl h ↦
                let c : some (f v) ≡ some m = rw (moved, e, h) at found in
                let d : f v ≡ m = cc in
                subst (λ (x : Message). x.availability ≡ "recalled") d (k.recalled v old)
            | inr h ↦
                let c : some v ≡ some m = rw (moved, e, h) at found in
                let d : v ≡ m = cc in subst (λ (x : Message). x.availability ≡ "recalled") d old
          ]
    ]

-- A new message under another key.
pub appended-IsSettled :
    (key : String) (recalls : List Recall) (s : List Message) (new : Message)
    → str_eq new.message_key key ≡ false
    → IsSettled key recalls s
    → IsSettled key recalls (s ++ new ∷ [])
unfolding has_key find_row
appended-IsSettled key recalls s new other w r m known found =
    let both = find_row-append (has_key key) s (new ∷ []) in
    elim (Option-cases (find_row (has_key key) s)) [
      | inl e ↦ absurd (let c : none ≡ some m = rw (both, e, other) at found in cc)
      | inr (v, e) ↦
          let c : some v ≡ some m = rw (both, e) at found in
          let d : v ≡ m = cc in
          subst (λ (x : Message). x.availability ≡ "recalled") d (w r v known e)
    ]

recalled-Keeps : (clock : Clock) (at_ : String) → Keeps (recalled_row clock at_)
unfolding recalled_row
recalled-Keeps clock at_ = record { key = λ m. refl; id = λ m. refl; recalled = λ m h. refl }

-- Marking is an update that keeps; what is marked is recalled.
pub marked-Touched :
    (clock : Clock) (id at_ : String) (s : List Message)
    → Touched s (update_rows (has_id id) (recalled_row clock at_) s)
marked-Touched clock id at_ s =
    touch (has_id id) (recalled_row clock at_) (recalled-Keeps clock at_) rest

pub marked-IsSettled :
    (clock : Clock) (key at_ : String) (recalls : List Recall) (s : List Message) (v : Message)
    → find_row (has_key key) s ≡ some v
    → IsSettled key recalls (update_rows (has_id v.id) (recalled_row clock at_) s)
unfolding has_id recalled_row
marked-IsSettled clock key at_ recalls s v e r m known found =
    let moved =
      found-touch key (has_id v.id) (recalled_row clock at_) s (recalled-Keeps clock at_) in
    let c : some (recalled_row clock at_ v) ≡ some m = rw (moved, e, eq_refl v.id) at found in
    let d : recalled_row clock at_ v ≡ m = cc in
    subst (λ (x : Message). x.availability ≡ "recalled") d refl
