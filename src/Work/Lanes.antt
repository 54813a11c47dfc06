-- ===== src/Work/Lanes.antt =====
-- core/runtime_scheduling.go: runtimeExecutionLaneSQL: in a group, the tasks of one requester are
-- executed one after the other, in the order in which they were created.
use memgov.Base.{
  String, Bool, not, ◌&&◌, ◌||◌, Option, none, some, List, [], ◌∷◌, find_row, has_row, str_eq,
  str_lt, if◌then◌else◌, concat,
}
use memgov.Schema.{Db}
use memgov.Schema.Runtimes.{Runtime}
use memgov.Schema.Leases.{WorkLease}
use memgov.Schema.People.{Message}
use memgov.Schema.Tasks.{Task, TaskMessage, TaskAttempt, ActionAttempt}

pub sender_of : Message → String
sender_of m =
    if not (str_eq m.sender_principal "")
    then m.sender_principal
    else if not (str_eq m.sender_id_type "") && not (str_eq m.sender_id_value "")
    then concat (m.sender_id_type ∷ ":" ∷ m.sender_id_value ∷ [])
    else ""

pub is_message : String → Message → Bool
is_message id m = str_eq m.id id

-- A message of the task that is stored; with a role, one in that role.
pub is_link : Db → String → TaskMessage → Bool
is_link db task k = str_eq k.task_id task && has_row (is_message k.message_id) db.messages

-- The first trigger of the task, or else its first message.
pub first_link : Db → String → Option TaskMessage
first_link db task =
    elim (find_row (λ (k : TaskMessage). is_link db task k && str_eq k.role "trigger")
      db.runtime_task_messages) [
        | some k ↦ some k
        | none ↦ find_row (is_link db task) db.runtime_task_messages
      ]

-- runtimeTaskRequesterSQL: "" where nobody is known.
pub requester : Db → String → String
requester db task = elim (first_link db task) [
  | none ↦ ""
  | some k ↦ elim (find_row (is_message k.message_id) db.messages) [
    | none ↦ ""
    | some m ↦ sender_of m
  ]
]

-- runtimeSameRequesterSQL: an unknown requester is in everybody's way.
pub same_requester : String → String → Bool
same_requester a b = str_eq a "" || str_eq b "" || str_eq a b

pub in_lane : Db → Task → Task → Bool
in_lane db t other =
    str_eq other.runtime_id t.runtime_id
    && str_eq other.route_id t.route_id
    && same_requester (requester db other.id) (requester db t.id)

-- A worker is at the task, or has been and is not known to have ended.
pub is_worked_on : Db → String → Bool
is_worked_on db id =
    has_row (λ (l : WorkLease). str_eq l.task_id id && str_eq l.kind "execution" && not l.released)
      db.runtime_work_leases
    || has_row (λ (a : TaskAttempt). str_eq a.task_id id && str_eq a.status "running")
        db.runtime_attempts
    || has_row (λ (a : ActionAttempt). str_eq a.task_id id && str_eq a.status "running")
        db.runtime_action_attempts

pub blocks : Db → Task → Task → Bool
blocks db t other = in_lane db t other && is_worked_on db other.id

-- The rows before the one with the id: those with a smaller rowid.
pub rows_before : String → List Task → List Task
rows_before id [] = []
rows_before id (t ∷ ts) = let rest = rows_before id ts in if str_eq t.id id then [] else t ∷ rest

pub waits : Db → Task → Task → Bool
waits db t other =
    str_eq other.status "pending" && not (str_eq other.kind "memory") && in_lane db t other

-- A pending task of the lane that was created before this one.
pub has_earlier : Db → Task → Bool
has_earlier db t =
    has_row (λ o. waits db t o && str_lt o.created_at t.created_at) db.runtime_tasks
    || has_row (λ o. waits db t o && str_eq o.created_at t.created_at)
        (rows_before t.id db.runtime_tasks)

unfoldable pub lane_free : Db → Runtime → Bool → Task → Bool
lane_free db c pending_order t =
    not (str_eq c.application_mode "group_mention")
    || (not (has_row (blocks db t) db.runtime_tasks) && not (pending_order && has_earlier db t))
