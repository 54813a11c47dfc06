-- ===== src/Identity/Tests.antt =====
-- Linking on concrete identifiers.
use memgov.Base.{
  ◌*◌, ◌≡◌, refl, String, false, ok, Clock, second, find_row, count_rows, insert_ignore,
}
use memgov.Schema.{Db, empty}
use memgov.Schema.Drafts.{Sender}
use memgov.Schema.Samples.{clock_at}
use memgov.Identity.{
  principal_for, link_identity, add_principal, link_alias, reassign, is_weak, is_alias, new_alias,
}
use memgov.Identity.Linking.{link_identity-merges}

abbrev clock : Clock
clock = clock_at (20 * second)

abbrev sender : String → String → Sender
sender kind value = record {
  id_type = kind;
  id_value = value;
  display_name = "Ann";
  self_author = false;
}

abbrev linked : Db
linked =
    let db = add_principal clock "p1" "corp" (sender "union_id" "u") empty in
    record db {
      identity_aliases =
          link_alias clock "p1" "corp" (sender "staff_id" "s") "operator_confirmed"
            db.identity_aliases;
    }

link :
    link_identity clock "p1" "corp"
      (sender "staff_id" "s")
      (sender "union_id" "u")
      "operator_confirmed"
      empty
    ≡ ok ("p1", linked)
unfolding link_identity principal_for find_row empty count_rows add_principal reassign insert_ignore
    is_alias new_alias
link = refl

link_identity-merges_example :
    (principal_for clock "p2" "corp" (sender "staff_id" "s") linked
      ≡ ok (record { id = "p1"; weak = is_weak (sender "staff_id" "s") }, linked))
    × (principal_for clock "p2" "corp" (sender "union_id" "u") linked
        ≡ ok (record { id = "p1"; weak = is_weak (sender "union_id" "u") }, linked))
link_identity-merges_example =
    link_identity-merges clock clock "p1" "p2" "corp" (sender "staff_id" "s")
      (sender "union_id" "u") "operator_confirmed" empty "p1" linked link
