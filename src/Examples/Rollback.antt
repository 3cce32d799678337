-- ===== src/Examples/Rollback.antt =====
-- A rollback that runs to its end, on the node of Family.
use beanstore.Base.{
  ◌≡◌, refl, String, false, none, some, [], ◌∷◌, cat, cut_prefix, contains, str_eq, if◌then◌else◌,
}
use beanstore.Base.Exec.{ok}
use beanstore.Lvm.Laws.{Entry, View}
use beanstore.Storage.State.{
  State, ready, snapshot, state_of, first_value, known_state, state_tag, state_text, tag_value,
  rollback_target_tag,
}
use beanstore.Storage.Errors.{wrap}
use beanstore.Storage.Verbs.{is_state, check_state, remove_volume}
use beanstore.Storage.Volume.{get_volume, volume_exists, is_owned, volume_from_lv}
use beanstore.Storage.Reader.{Files}
use beanstore.Storage.Rollback.{
  rollback_temp_name, begin_rollback, finish_rollback, rename_if, check_lineage,
}
use beanstore.Api.Server.{Daemon, Peers, map_error}
use beanstore.Api.Rollbacks.{
  roll_back, start_rollback, sweep_rollback, sweep_renamed_rollback, if_found, after_lookup,
  is_leftover, settle_leftover, remove_or_undo, finish_retried, finish_attempts, try_finish,
}
use beanstore.Examples.Toy.{toy_config, lv_of, keep_tags, append}
use beanstore.Examples.Moves.{same_hash}
use beanstore.Examples.Family.{family, on_selected, on_name, step, snap, move, rows_named}

abbrev family_files : Files View
family_files = record {
  open_file = λ p w. (ok tt, w);
  seek_end = λ p w. (ok 0, w);
  seek_start = λ p w. (ok tt, w);
  read = λ p o n w. (ok [], w);
  write_at = λ p o d w. (ok tt, w);
  sync = λ p w. (ok tt, w);
  alive = λ w. (ok tt, w);
}

abbrev family_peers : Peers View
family_peers = record {
  dial = λ t w. (ok tt, w);
  query_transfer = λ t x w. (ok 0, w);
  receive = λ t w. (ok tt, w);
  send_header = λ t x w. (ok tt, w);
  send_frame = λ t f w. (ok tt, w);
  close_and_recv = λ t w. (ok tt, w);
  commit_transfer = λ t x b w. (ok tt, w);
  abort_transfer = λ t x w. (ok tt, w);
  query_volume = λ t id w. (ok false, w);
}

abbrev family_daemon : Daemon View
family_daemon = record {
  lvm = family;
  cfg = toy_config;
  files = family_files;
  sha256 = same_hash;
  peers = family_peers;
  text = λ cause. "failed";
}

abbrev entry_in : String → State → String → Entry
entry_in id s origin = record {
  lv = record (lv_of id (state_tag s ∷ []) 1048576) { origin = origin };
  skip = false;
}

-- A READY volume and a snapshot of it.
abbrev home : View
home j =
    if str_eq j "a"
    then some (entry_in "a" ready "")
    else if str_eq j "snap"
    then some (entry_in "snap" snapshot "a")
    else none

rolls_back : (roll_back family_daemon "a" "snap" home).0 ≡ ok tt
unfolding roll_back start_rollback sweep_rollback sweep_renamed_rollback if_found after_lookup
    is_leftover settle_leftover remove_or_undo finish_retried finish_attempts try_finish map_error
    rollback_temp_name begin_rollback finish_rollback rename_if check_lineage get_volume
    volume_exists is_owned volume_from_lv is_state check_state remove_volume wrap on_selected
    on_name step snap move rows_named cut_prefix cat state_of first_value known_state state_tag
    state_text tag_value rollback_target_tag keep_tags append contains
rolls_back = refl
