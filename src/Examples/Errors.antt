-- ===== src/Examples/Errors.antt =====
-- The theorems on tracked errors and on the loop over the keys, applied.
use nestjs_template.Common.{
  ℕ, ◌===◌, ◌≡◌, String, refl, true, false, none, some, List, [], ◌∷◌, Has, here, arith,
}
use nestjs_template.Redis.Scan.{last, more, scan, scan-Iteration}
use nestjs_template.State.{Permission, World}
use nestjs_template.Redis.Memory.{memory}
use nestjs_template.Text.{starts_with, text_length}
use nestjs_template.Client.{take_text}
use nestjs_template.Permissions.Manage.{
  is_system_key, update_permission, delete_permission, by_key, UpdatePermissionDto,
}
use nestjs_template.Permissions.Manage.System.{system_permission_kept}
use nestjs_template.ErrorTracking.{
  Occurrence, TrackerEnv, Tracker, build_fingerprint, top_frame, is_storable, execute_all,
}
use nestjs_template.ErrorTracking.Rows.{count_of}
use nestjs_template.ErrorTracking.Counted.{count-execute_all}
use nestjs_template.ErrorTracking.Reported.{alerts_of, execute_all-once}
use nestjs_template.Examples.{a_world}

-- A server that answers in two batches.
abbrev two_batches : String → String × List String
two_batches cursor = elim (cursor === "0") [
  | true ↦ ("7", "a" ∷ [])
  | false ↦ ("0", "b" ∷ "c" ∷ [])
]

scan-Iteration_example : scan two_batches 2 ≡ some ("a" ∷ "b" ∷ "c" ∷ [])
scan-Iteration_example =
    scan-Iteration two_batches 2 2 ("a" ∷ "b" ∷ "c" ∷ []) (more refl refl (last refl)) (omega arith)

abbrev seen_users : Permission
seen_users = record {
  id = 10;
  name = "Users: Read";
  key = "users:read";
  description = none;
  created_by = none;
  updated_by = none;
}

abbrev with_permission : World memory
with_permission = record a_world { permissions = seen_users ∷ [] }

abbrev rekey : UpdatePermissionDto
rekey = record { name = none; key = some "films:read"; description = none }

system_permission_kept_example :
    Has seen_users
      (update_permission (some 7) (by_key "users:read") rekey with_permission).1.permissions
    × Has seen_users
        (delete_permission (some 7) (by_key "users:read") with_permission).1.permissions
unfolding is_system_key starts_with
system_permission_kept_example =
    system_permission_kept (some 7) (by_key "users:read") rekey with_permission seen_users refl here

abbrev pub a_tracker_env : TrackerEnv
a_tracker_env = record {
  sha256 = λ text. text;
  is_prod = true;
  support_email = some "help@example.org";
  delivers = λ e now. true;
}

abbrev pub a_crash : Occurrence
a_crash = record {
  error_name = "Error";
  message = "boom";
  stack = none;
  method = "GET";
  url = "/films";
}

abbrev pub a_tracker : Tracker
a_tracker = record { now = 0; next_id = 1; errors = []; alerts = []; status_logs = [] }

abbrev two_crashes : List (ℕ × Occurrence)
two_crashes = (5, a_crash) ∷ (9, a_crash) ∷ []

count-execute_all_example :
    count_of "Error:boom\n" (execute_all a_tracker_env two_crashes a_tracker).errors ≡ 2
unfolding build_fingerprint top_frame take_text is_storable text_length
count-execute_all_example = count-execute_all a_tracker_env "Error:boom\n" two_crashes a_tracker

execute_all-once_example :
    alerts_of a_tracker_env "Error:boom\n" (execute_all a_tracker_env two_crashes a_tracker).alerts
    ≡ 1
unfolding build_fingerprint top_frame take_text is_storable text_length
execute_all-once_example =
    execute_all-once a_tracker_env
      (record {
        in_production = refl;
        address = "help@example.org";
        to_address = refl;
        taken = λ e now. refl;
      })
      "Error:boom\n" two_crashes a_tracker refl refl
