-- ===== src/Tests/Selection.antt =====
-- A run of the selection: three old deposits of a key, on a disk that is full to nine tenths.
use onlybackup.Prelude.{ℕ, ◌+◌, ◌<◌, ◌≤◌, String, ◌≡◌, refl, false, none, [], ◌∷◌, ok, All, count}
use onlybackup.Model.Types.{Backup, complete, stamped}
use onlybackup.Policy.Protection.{minimum_days, backup_time, not_before_cutoff, local_midnight}
use onlybackup.Policy.Protection.Civil.{utc, utc-IsRegular}
use onlybackup.Policy.Capacity.{used_basis_points, filesystem_bytes, bytes_to_free}
use onlybackup.Policy.Select.{
  SelectionInput, Selection, minimum_for, add_to_day, is_young, place, collect, key_count,
  complete_count, is_takeable, every_backup, remove_all, add_sizes, take_day, take_days, start,
  conclude, select_backups,
}
use onlybackup.Policy.Select.Copies.{IsSafe, select_backups-IsSafe}
use onlybackup.Policy.Select.Scope.{select_backups-IsOld}
use onlybackup.Tests.World.{env, on_day, value}
use onlybackup.Tests.Story.{first_reserved_row}

abbrev old : String → ℕ → Backup
old id day = record first_reserved_row {
  id = id;
  status = complete;
  size = 200;
  received_at = stamped (on_day day);
}

abbrev input : SelectionInput
input = record {
  now = on_day 1000;
  timezone = "UTC";
  filesystem = record { blocks = 1000; blocks_free = 100; blocks_available = 100; block_size = 1 };
  threshold = 8000;
  retention_days = 30;
  key_retention_days = λ key. none;
  expected_bytes = 0;
  pending_purge_bytes = 0;
  backups = old "a" 900 ∷ old "b" 901 ∷ old "c" 902 ∷ [];
  revoked = λ key. false;
}

abbrev nothing : Selection
nothing = record {
  eligible = false;
  reason = "";
  used_basis_points = 0;
  bytes_needed = 0;
  selected_bytes = 0;
  shortfall_bytes = 0;
  candidates = [];
}

abbrev selection : Selection
selection = value nothing (select_backups env.load_location input)

selection_ok : select_backups env.load_location input ≡ ok selection
unfolding select_backups used_basis_points filesystem_bytes collect place is_young not_before_cutoff
    local_midnight add_to_day bytes_to_free
selection_ok = refl

-- the oldest deposit is proposed
oldest : selection.candidates ≡ old "a" 900 ∷ []
unfolding select_backups used_basis_points filesystem_bytes collect place is_young not_before_cutoff
    local_midnight add_to_day bytes_to_free conclude take_days take_day is_takeable every_backup
    key_count complete_count remove_all add_sizes start count
oldest = refl

select_backups-IsSafe_example : IsSafe input selection.candidates
select_backups-IsSafe_example = select_backups-IsSafe env.load_location input selection selection_ok

select_backups-IsOld_example :
    All
      (λ b.
        (b.size ≡ 200)
        × (minimum_days ≤ minimum_for input b)
        × (utc.day (backup_time b) + minimum_for input b < utc.day input.now))
      selection.candidates
select_backups-IsOld_example =
    select_backups-IsOld (λ b. b.size ≡ 200) env.load_location input selection utc refl
      utc-IsRegular (refl, (refl, (refl, tt))) selection_ok
