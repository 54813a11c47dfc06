-- ===== src/Intake/History/Recalled.antt =====
-- core/message.go: a recalled message under further events.
use memgov.Base.{◌≡◌, String, some, List, find_row}
use memgov.Schema.{Db}
use memgov.Schema.People.{Message}
use memgov.Schema.Inbox.{Recall}
use memgov.Intake.{Contents}
use memgov.Intake.Store.{has_key, is_recall}
use memgov.Intake.Touched.{IsSettled}
use memgov.Intake.History.{Delivery, run, run-Kept}

-- From a store in which no message is available whose recall is known (such as the empty one), over
-- any sequence of platform events, in whatever order the message, its edits and its recall come in: a
-- recall that is known stays known, and a stored message whose recall is known is recalled.
pub recall_is_final :
    (o : Contents) (db : Db) (ds : List Delivery) (key : String)
    → IsSettled key db.message_recalls db.messages
    → ((r : Recall)
        → find_row (is_recall key) db.message_recalls ≡ some r
        → (r' : Recall) × (find_row (is_recall key) (run o db ds).message_recalls ≡ some r'))
      × ((r : Recall) (m : Message)
          → find_row (is_recall key) (run o db ds).message_recalls ≡ some r
          → find_row (has_key key) (run o db ds).messages ≡ some m
          → m.availability ≡ "recalled")
recall_is_final o db ds key w = let k = run-Kept o db ds in (k.recalls key, k.settled key w)
