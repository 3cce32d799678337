-- ===== src/Examples/Remote.antt =====
-- A daemon on the node of Toy with a target that takes whatever is pushed to it; the second part
-- of the world is whether the volume is there. The theorems on requests, tasks, pushes and
-- reservations at runs of it.
use beanstore.Base.{
  ◌≡◌, refl, cat, String, Bool, true, false, [], ◌∷◌, contains, has_prefix, cut_prefix, ◌||◌, ◌&&◌,
  ◌⊎◌,
}
use beanstore.Base.Exec.{ok, Exec}
use beanstore.Lvm.Interface.{Lvm}
use beanstore.Operations.{new_table, begin}
use beanstore.Operations.Phases.{run}
use beanstore.Operations.Endings.{Ended}
use beanstore.Storage.State.{
  State, ready, pushing, state_of, first_value, state_tag, state_text, known_state,
}
use beanstore.Base.StringMap.{lookup}
use beanstore.Api.Names.{is_volume_id, is_target_address}
use beanstore.Storage.Volume.{get_volume, is_owned, volume_from_lv}
use beanstore.Storage.Verbs.{check_state, is_state}
use beanstore.Storage.Pushes.{mark_pushing}
use beanstore.Storage.Pins.{new_pins}
use beanstore.Storage.Transfers.{new_transfers}
use beanstore.Storage.Reader.{Files}
use beanstore.Storage.Node.{NodeLaws, Same-refl}
use beanstore.Api.Authorize.{
  authorize, authorize_role, peer_role, nodes_call_transfers, role_node, transfer_service_prefix,
}
use beanstore.Api.Reservations.{
  NameReservations, new_name_reservations, reserve, release_names, reserve_release,
}
use beanstore.Api.Server.{
  Peers, Daemon, Server, pushes, require, begin_operation, or_fail, inside, update_ops,
}
use beanstore.Api.Pushing.{run_push, answer_push_volume}
use beanstore.Api.Pushing.Target.{TargetLaws}
use beanstore.Api.Pushing.Outcome.{Outcome}
use beanstore.Api.Pushing.Safety.{run_push_keeps_one}
use beanstore.Api.Jobs.{Request, push_volume, accept, run_job, Unresolved}
use beanstore.Api.Jobs.Requests.{Answered}
use beanstore.Api.Jobs.Accepted.{request_answers, accepted_ends}
use beanstore.Examples.Toy.{World, toy, toy_config, select_rows, on, at, append}
use beanstore.Examples.Lawful.{toy_laws}
use beanstore.Examples.Runs.{in_state, in_state-IsTagged, holds_pushing}
use beanstore.Examples.Moves.{same_hash}

abbrev pub Both : Type 0
Both = World × Bool

abbrev across : {E A : Type 0} → Exec World E A → Exec Both E A
across m w = ((m w.0).0, ((m w.0).1, w.1))

abbrev pub both_lvm : Lvm Both
both_lvm = record {
  create_pool = λ vg p n q. across (toy.create_pool vg p n q);
  create_volume = λ vg p id n q. across (toy.create_volume vg p id n q);
  create_snapshot = λ vg o id q. across (toy.create_snapshot vg o id q);
  list = λ q. across (toy.list q);
  remove = λ x q. across (toy.remove x q);
  change = λ x q. across (toy.change x q);
  activate = λ x q. across (toy.activate x q);
  deactivate = λ x q. across (toy.deactivate x q);
  resize = λ id n q. across (toy.resize id n q);
  rename = λ vg o id q. across (toy.rename vg o id q);
  percent_of = toy.percent_of;
}

abbrev pub both_laws : NodeLaws both_lvm toy_config
both_laws = record {
  view = λ w. toy_laws.view w.0;
  retag = toy_laws.retag;
  device = toy_laws.device;
  view_name = λ w. toy_laws.view_name w.0;
  retag_kept = toy_laws.retag_kept;
  retag_dropped = toy_laws.retag_dropped;
  list_keeps = λ q w. toy_laws.list_keeps q w.0;
  list_named = λ id w. toy_laws.list_named id w.0;
  list_pool_sound = λ w. toy_laws.list_pool_sound w.0;
  list_pool_complete = λ w. toy_laws.list_pool_complete w.0;
  list_pool_distinct = λ w. toy_laws.list_pool_distinct w.0;
  change_fails = λ id q w. toy_laws.change_fails id q w.0;
  activate_fails = λ id q w. toy_laws.activate_fails id q w.0;
  deactivate_fails = λ id q w. toy_laws.deactivate_fails id q w.0;
  remove_fails = λ id q w. toy_laws.remove_fails id q w.0;
  create_fails = λ id n q w. toy_laws.create_fails id n q w.0;
  snapshot_fails = λ o id q w. toy_laws.snapshot_fails o id q w.0;
  rename_fails = λ o n q w. toy_laws.rename_fails o n q w.0;
  resize_fails = λ id n q w. toy_laws.resize_fails id n q w.0;
  change_done = λ id q w. toy_laws.change_done id q w.0;
  activate_done = λ id q w. toy_laws.activate_done id q w.0;
  deactivate_done = λ id q w. toy_laws.deactivate_done id q w.0;
  remove_done = λ id q w. toy_laws.remove_done id q w.0;
  create_done = λ id n q w. toy_laws.create_done id n q w.0;
  snapshot_done = λ o id q w. toy_laws.snapshot_done o id q w.0;
  rename_done = λ o n q w. toy_laws.rename_done o n q w.0;
  resize_done = λ id n q w. toy_laws.resize_done id n q w.0;
}

abbrev toy_peers : Peers Both
toy_peers = record {
  dial = λ t w. (ok tt, w);
  query_transfer = λ t x w. (ok 0, w);
  receive = λ t w. (ok tt, w);
  send_header = λ t x w. (ok tt, w);
  send_frame = λ t f w. (ok tt, w);
  close_and_recv = λ t w. (ok tt, w);
  commit_transfer = λ t x b w. (ok tt, (w.0, true));
  abort_transfer = λ t x w. (ok tt, w);
  query_volume = λ t id w. (ok w.1, w);
}

abbrev empty_files : Files Both
empty_files = record {
  open_file = λ p w. (ok tt, w);
  seek_end = λ p w. (ok 0, w);
  seek_start = λ p w. (ok tt, w);
  read = λ p o n w. (ok [], w);
  write_at = λ p o d w. (ok tt, w);
  sync = λ p w. (ok tt, w);
  alive = λ w. (ok tt, w);
}

abbrev pub toy_daemon : Daemon Both
toy_daemon = record {
  lvm = both_lvm;
  cfg = toy_config;
  files = empty_files;
  sha256 = same_hash;
  peers = toy_peers;
  text = λ cause. "failed";
}

takes_all : (id : String) → TargetLaws toy_daemon both_laws "node2:7420" id "m1"
takes_all id = record {
  arrived = λ w. w.1;
  list_local = λ q w. refl;
  change_local = λ x q w. refl;
  activate_local = λ x q w. refl;
  deactivate_local = λ x q w. refl;
  files_local = λ w. record {
    open_file = λ p s h. h;
    seek_end = λ p s h. h;
    seek_start = λ p s h. h;
    read = λ p o n s h. h;
    write_at = λ p o b s h. h;
    sync = λ p s h. h;
    alive = λ s h. h;
  };
  dial_remote = λ w. Same-refl _;
  query_transfer_remote = λ w. Same-refl _;
  receive_remote = λ w. Same-refl _;
  header_remote = λ w. Same-refl _;
  frame_remote = λ f w. Same-refl _;
  close_remote = λ w. Same-refl _;
  commit_remote = λ b w. Same-refl _;
  abort_remote = λ w. Same-refl _;
  query_remote = λ w. Same-refl _;
  dial_keeps = λ w. refl;
  query_transfer_keeps = λ w. refl;
  receive_keeps = λ w. refl;
  header_keeps = λ w. refl;
  frame_keeps = λ f w. refl;
  close_keeps = λ w. refl;
  abort_keeps = λ w. refl;
  query_keeps = λ w. refl;
  commit_lands = λ b w h. refl;
  commit_refuses = λ b w h. absurd (cc h);
  query_answers = λ w b h. cc h;
}

abbrev pub server_in : State → Server Both
server_in s = record {
  ops = new_table;
  pins = new_pins;
  reserved = new_name_reservations;
  transfers = new_transfers;
  world = (in_state s, false);
}

run_push_keeps_one_example :
    Outcome toy_daemon both_laws "node2:7420" "a" "m1" "op1"
      (takes_all "a")
      (both_laws.view (in_state pushing, false))
      (run_push toy_daemon "a" "m1" "node2:7420" "op1" (server_in pushing)).world
unfolding takes_all
run_push_keeps_one_example =
    run_push_keeps_one toy_daemon both_laws "node2:7420" "a" "m1" "op1" (takes_all "a")
      (server_in pushing) (in_state-IsTagged pushing) holds_pushing refl

abbrev left_behind : Unresolved
left_behind = record { id = "a"; transfer_id = "m1"; target = "node2:7420" }

abbrev pushes_a : Request
pushes_a = push_volume "a" "m1" "node2:7420" "op1"

request_answers_example : Answered "op1" new_table (accept toy_daemon pushes_a (server_in ready))
request_answers_example = request_answers toy_daemon pushes_a (server_in ready)

run_accept :
    (accept toy_daemon pushes_a (server_in ready)).0 ≡ ok (pushes "a" "m1" "node2:7420" "op1")
unfolding accept answer_push_volume require is_volume_id is_target_address begin_operation begin
    lookup or_fail inside mark_pushing get_volume select_rows cut_prefix cat is_owned state_of
    first_value state_tag check_state is_state state_text volume_from_lv known_state on at append
    update_ops
run_accept = refl

accepted_ends_example :
    Ended "op1"
      (run_job toy_daemon
        (pushes "a" "m1" "node2:7420" "op1")
        (accept toy_daemon pushes_a (server_in ready)).1).ops
unfolding run
accepted_ends_example =
    accepted_ends toy_daemon pushes_a (server_in ready) (pushes "a" "m1" "node2:7420" "op1") []
      (accept toy_daemon pushes_a (server_in ready)).1 run_accept refl

nodes_call_transfers_example :
    (contains role_node (role_node ∷ []) ≡ true)
    × (method : String) × ("/beanstore.v1.TransferService/Receive"
        ≡ cat transfer_service_prefix method)
unfolding contains authorize authorize_role peer_role has_prefix cut_prefix
nodes_call_transfers_example =
    nodes_call_transfers (role_node ∷ []) [] [] "/beanstore.v1.TransferService/Receive" refl refl

abbrev rolling : NameReservations
rolling = record { names = "b" ∷ "b+rb" ∷ [] }

reserve_release_example :
    (((reserve ("a" ∷ "a+rb" ∷ []) rolling).0 ≡ true)
      × (contains "b" (reserve ("a" ∷ "a+rb" ∷ []) rolling).1.names
          ≡ contains "b" ("a" ∷ "a+rb" ∷ []) || contains "b" rolling.names)
      × (contains "b" ("a" ∷ "a+rb" ∷ []) && contains "b" rolling.names ≡ false)
      × (contains "b"
            (release_names ("a" ∷ "a+rb" ∷ []) (reserve ("a" ∷ "a+rb" ∷ []) rolling).1).names
          ≡ contains "b" rolling.names))
    ⊎ (((reserve ("a" ∷ "a+rb" ∷ []) rolling).0 ≡ false)
        × ((reserve ("a" ∷ "a+rb" ∷ []) rolling).1 ≡ rolling)
        × ((y : String) × (contains y ("a" ∷ "a+rb" ∷ []) ≡ true)
            × (contains y rolling.names ≡ true)))
reserve_release_example = reserve_release ("a" ∷ "a+rb" ∷ []) rolling "b"
