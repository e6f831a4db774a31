-- ===== src/Examples/Invites.antt =====
-- Runs of the requests on invitations.
use roomies.Base.{ℕ, ◌+◌, ◌≤◌, ◌≡◌, refl, false, some, List, [], ◌∷◌, arith, none}
use roomies.Base.Sql.{count_where}
use roomies.Base.Result.{ok, err}
use roomies.Base.Tx.{transact}
use roomies.Models.{member}
use roomies.Houses.{Houses, of_member}
use roomies.Houses.Managed.{IsManaged}
use roomies.Queue.{
  outbox_message, acquire_next_job, is_runnable, select_job_candidate, acquire_candidate,
  take_lease, OutboxMessage, object,
}
use roomies.Queue.Enqueue.{new_message, new_job}
use roomies.Invitations.{
  HouseInvitation, Tables, InvitationError, find_invitation, accept as accept_row,
  InvitationNotification, notify, house_invitation_created,
}
use roomies.Invitations.Links.{Url, https}
use roomies.Invitations.Ops.{
  invitation_delivery_available, check_pending, lock_house, Library, Fresh, new_invitation,
  accept_invitation, revoke_invitation,
}
use roomies.Invitations.Requests.{
  Config, Request, create, list, revoke, accept, check_delivery, no_role, serve, serve_all,
  handle_accept, accept_as,
}
use roomies.Invitations.Unique.{IsUnique}
use roomies.Invitations.Runs.{settled_invitation_stays, serve_all_invariant}
use roomies.Invitations.Accepting.{IsAddressed}
use roomies.Invitations.Acceptance.{
  Accepted, accept_invitation_sound, accept_invitation_twice, overdue_invitation_stays,
}
use roomies.Invitations.Joining.{IsInvited, serve_joins}
use roomies.Invitations.Progress.{accept_invitation_succeeds}
use roomies.Worker.{
  Worker, sent, run_once, with_job, with_id, with_message, dispatch, with_payload, with_provider,
  deliver, with_delivery, send_sealed, send, after_send,
}
use roomies.Worker.Sends.{IsOpen, run_once_sends}
use roomies.Examples.Data.{people}

abbrev library : Library
library = record {
  encode = λ n. "{}";
  topic_text = λ t. "house.invitation";
  hash_token = λ t. t + 1000;
  normalize = λ e. e;
}

abbrev origin : Url
origin = record {
  scheme = https;
  host = "roomies.example";
  has_user = false;
  path = "";
  raw_path = "";
  raw_query = "";
  fragment = "";
}

-- User 14 has the address 50.
abbrev config : Config
config = record {
  lib = library;
  link = record {
    query = λ t. "token";
    render = λ u. "url";
    encrypt = some (λ i h j u. some "sealed");
  };
  base = some origin;
  parse_address = λ e. some e;
  trim = λ t. t;
  invitation_ttl = 100;
  user_email = λ u. some 50;
}

abbrev invited : HouseInvitation
invited = new_invitation 1 7 50 member 1005 11 0 100

abbrev seven : Houses
seven = record {
  houses = record { id = 7; name = "home"; created_at = 0 } ∷ [];
  members = people;
  events = [];
}

abbrev stored : OutboxMessage
stored = new_message 30 "house.invitation" 4 (object (some "sealed") "{}") 0 0

abbrev tables : Tables
tables = record {
  house = seven;
  invitations = invited ∷ [];
  queue = record { jobs = []; outbox = stored ∷ [] };
  audit = [];
}

abbrev ids : Fresh
ids = record { message_id = 31; job_id = 32 }

abbrev taken : Tables
taken = record tables { invitations = accept_row 14 20 invited ∷ [] }

abbrev requests : List Request
requests =
    accept 20 ids 5 14 (some 5)
    ∷ create 21 2 (record { message_id = 41; job_id = 42 }) 6 7 11
        (some (record { email = 60; role = no_role }))
    ∷ revoke 22 (record { message_id = 51; job_id = 52 }) 7 11 2
    ∷ list 23 7 11
    ∷ check_delivery 24 2
    ∷ []

settled_invitation_stays_example :
    find_invitation 1 (serve_all config requests taken).invitations
    ≡ some (accept_row 14 20 invited)
settled_invitation_stays_example =
    settled_invitation_stays config requests taken 1 (accept_row 14 20 invited) refl refl

tables-IsUnique : IsUnique tables
unfolding IsUnique
tables-IsUnique house email = ground arith

seven-IsManaged : IsManaged seven
seven-IsManaged = record { unique = λ h u. ground arith; managed = (omega arith, tt) }

serve_all_invariant_example :
    IsUnique (serve_all config requests tables) × IsManaged (serve_all config requests tables).house
serve_all_invariant_example =
    serve_all_invariant config requests tables tables-IsUnique seven-IsManaged

tables-IsAddressed : (now : ℕ) → IsAddressed library now ids 5 5 14 50 tables invited
tables-IsAddressed now = record {
  found = refl;
  house = record { id = 7; name = "home"; created_at = 0 };
  house_found = refl;
  address = refl;
}

accept_invitation_succeeds_example :
    (t : Tables) × (accept_invitation library 20 ids 5 5 14 50 tables
      ≡ ok (accept_row 14 20 invited, t))
    × (1 ≤ count_where (of_member 7 14) t.house.members)
accept_invitation_succeeds_example =
    accept_invitation_succeeds library 20 ids 5 5 14 50 tables invited (tables-IsAddressed 20) refl
      refl refl (record { message = refl; job = refl }) (refl, tt)

abbrev Joined : Type 0
Joined =
    (t : Tables) × (accept_invitation library 20 ids 5 5 14 50 tables
      ≡ ok (accept_row 14 20 invited, t))
    × (1 ≤ count_where (of_member 7 14) t.house.members)

first_run : Joined
first_run =
    accept_invitation_succeeds library 20 ids 5 5 14 50 tables invited (tables-IsAddressed 20) refl
      refl refl (record { message = refl; job = refl }) (refl, tt)

accept_invitation_sound_example :
    (x : HouseInvitation) × IsAddressed library 20 ids 5 5 14 50 tables x
    × Accepted library 20 ids 5 5 14 50 tables (accept_row 14 20 invited, first_run.0) x
accept_invitation_sound_example =
    accept_invitation_sound library 20 ids 5 5 14 50 tables (accept_row 14 20 invited, first_run.0)
      first_run.1

accept_invitation_twice_example :
    accept_invitation library 30 (record { message_id = 41; job_id = 42 }) 6 5 14 50 first_run.0
    ≡ ok (accept_row 14 20 invited, first_run.0)
accept_invitation_twice_example =
    accept_invitation_twice library 20 30 ids (record { message_id = 41; job_id = 42 }) 5 6 5 14 50
      tables (accept_row 14 20 invited, first_run.0) first_run.1

overdue_invitation_stays_example :
    ((e : InvitationError) × (transact (accept_invitation library 101 ids 5 5 14 50) tables
        ≡ (err e, tables)))
    × ((e : InvitationError) × (transact (revoke_invitation library 101 ids 7 1 14) tables
          ≡ (err e, tables)))
overdue_invitation_stays_example =
    overdue_invitation_stays library 101 ids 5 5 14 50 tables invited (tables-IsAddressed 101) refl
      refl refl

joins_now :
    1
    ≤ count_where
        (of_member 7 14)
        (serve config (accept 20 ids 5 14 (some 5)) tables).1.house.members
unfolding serve handle_accept accept_as
joins_now = ground (arith, first_run.1, first_run.2)

serve_joins_example : IsInvited config tables 7 14 (accept 20 ids 5 14 (some 5))
serve_joins_example = serve_joins config (accept 20 ids 5 14 (some 5)) tables 7 14 refl joins_now

abbrev notification : InvitationNotification
notification = notify house_invitation_created invited 0 none

abbrev worker : Worker
worker = record {
  owner = 5;
  lease_duration = 30;
  decode = λ t. some notification;
  decrypt = some (λ d i h j. some "url");
  provider = some (λ n u. none);
}

abbrev waiting : Tables
waiting = record tables {
  queue = record { jobs = new_job 32 outbox_message 4 30 0 0 5 ∷ []; outbox = stored ∷ [] };
}

link_sent : (run_once worker 20 waiting).0 ≡ sent notification (some "url")
unfolding run_once with_job with_id with_message dispatch with_payload with_provider deliver
    with_delivery send_sealed send after_send invitation_delivery_available check_pending lock_house
    acquire_next_job is_runnable select_job_candidate acquire_candidate take_lease
link_sent = refl

run_once_sends_example : IsOpen 20 1 waiting
run_once_sends_example = run_once_sends worker 20 notification "url" waiting link_sent
