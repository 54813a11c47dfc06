-- ===== src/Channel/Capabilities/Revoked.antt =====
-- core/channel.go with core/dispatch.go: a channel whose tool can no longer send.
use memgov.Base.{
  true_ne_false, ◌≡◌, ◌≢◌, refl, sym, ap, ◌∙◌, String, false, ◌||◌, some, ok, find_row, str_eq,
  arith, Clock, update_rows, Result-cases, Option-cases, Bool-cases, inl, inr, eq_iff,
}
use memgov.Base.Table.{find_row-update}
use memgov.Schema.{Db}
use memgov.Schema.Channels.{Channel, Capabilities}
use memgov.Schema.Drafts.{Draft}
use memgov.Channel.{read_channel}
use memgov.Channel.Capabilities.{set_capabilities, probed}
use memgov.Outbox.{TaskView, redact_draft}
use memgov.Outbox.Dispatch.{authorize_dispatch, is_row}
use memgov.Outbox.Checks.{is_verified}
use memgov.Outbox.Safety.{dispatch_checks_everything}

set_capabilities-inv :
    (clock : Clock) (id : String) (caps : Capabilities) (tool : String) (db : Db) (c : Channel)
    (db' : Db)
    → set_capabilities clock id caps tool db ≡ ok (c, db')
    → (db' ≡ record db {
      channels = update_rows (λ c. str_eq c.id id) (probed clock caps tool) db.channels;
    })
      × (read_channel db' id ≡ ok c)
unfolding set_capabilities
set_capabilities-inv clock id caps tool db c db' h = elim (Result-cases (read_channel db id)) [
  | inr (x, e) ↦ ground arith
  | inl (o, e) ↦
      elim (Result-cases (
        read_channel
          (record db {
            channels = update_rows (λ c. str_eq c.id id) (probed clock caps tool) db.channels;
          })
          id)) [
            | inr (x, e') ↦ ground arith
            | inl (n, e') ↦
                let (p, q) : (n ≡ c)
                    × (record db {
                      channels =
                          update_rows (λ c. str_eq c.id id) (probed clock caps tool) db.channels;
                    }
                        ≡ db') =
                  ground arith in
                (sym q, ap (λ (x : Db). read_channel x id) (sym q) ∙ e' ∙ ap ok p)
          ]
]

probed-found :
    (clock : Clock) (id : String) (caps : Capabilities) (tool : String) (db : Db) (c : Channel)
    → read_channel
        (record db {
          channels = update_rows (λ c. str_eq c.id id) (probed clock caps tool) db.channels;
        })
        id
      ≡ ok c
    → c.id ≡ id
    → c.capabilities.verified ≡ caps.verified
unfolding read_channel probed
probed-found clock id caps tool db c h own =
    let key = λ (c : Channel). str_eq c.id id || str_eq c.name id in
    let found =
      find_row-update key (λ c. str_eq c.id id) (probed clock caps tool) db.channels (λ x. refl) in
    elim (Option-cases (find_row key db.channels)) [
      | inl n ↦ absurd (let q = rw (found, n) at h in cc)
      | inr (o, k) ↦ elim (Bool-cases (str_eq o.id id)) [
        | inl b ↦
            let q : ok (probed clock caps tool o) ≡ ok c = rw (found, k, b) at h in
            let same : probed clock caps tool o ≡ c = cc q in
            ap (λ (x : Channel). x.capabilities.verified) (sym same)
        | inr b ↦
            let q : ok o ≡ ok c = rw (found, k, b) at h in
            let same : o ≡ c = cc q in
            absurd
              (true_ne_false (sym ((eq_iff o.id id).1 (ap (λ (x : Channel). x.id) same ∙ own)) ∙ b))
      ]
    ]

-- Once a channel has been stored as one that is not verified to send, no draft of the channel can
-- be dispatched. (The call was given the channel's id, not a name.)
pub revoked_send_stops_drafts :
    (tasks : TaskView) (clock later : Clock) (id : String) (caps : Capabilities) (tool : String)
    (db : Db) (c : Channel) (db' : Db) (key : String) (d : Draft) (attempt_id digest : String)
    (result : Draft × Db)
    → set_capabilities clock id caps tool db ≡ ok (c, db')
    → c.id ≡ id
    → is_verified caps.verified "send" ≡ false
    → find_row (is_row key) db'.outbox ≡ some d
    → d.channel_id ≡ id
    → authorize_dispatch tasks later attempt_id key digest db' ≢ ok result
unfolding redact_draft
revoked_send_stops_drafts tasks clock later id caps tool db c db' key d attempt_id digest
      (sent, db'') h own revoked found here sends =
    let (o, n, _, found', _, channel, _, all) =
      dispatch_checks_everything tasks later attempt_id key digest db' sent db'' sends in
    let (stored, read) = set_capabilities-inv clock id caps tool db c db' h in
    let q : some d ≡ some o = sym found ∙ found' in
    let same : d ≡ o = cc q in
    let r : ok c ≡ ok n =
      sym read
      ∙ ap (read_channel db') (sym here ∙ ap (λ (x : Draft). x.channel_id) same)
      ∙ channel in
    let it : c ≡ n = cc r in
    let verified =
      probed-found clock id caps tool db c (ap (λ (x : Db). read_channel x id) (sym stored) ∙ read)
        own in
    true_ne_false (
      sym all.verified
      ∙ ap (λ (x : Channel). is_verified x.capabilities.verified "send") (sym it)
      ∙ ap (λ v. is_verified v "send") verified
      ∙ revoked)
