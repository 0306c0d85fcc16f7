-- ===== src/Store/Profiles.antt =====
-- `ProfileRepository` of app/repositories.py. `first()` is the first row in insertion order, and equal keys of
-- an `order_by` keep that order.
use local_singbox_manager.Common.{ℕ, String, false, Option, List, map, ◌==◌, ◌=ℕ◌, leb, find}
use local_singbox_manager.Common.Sorting.{sort_with}
use local_singbox_manager.Store.Models.{Profile, Database}

unfoldable pub list_all : Database → List Profile
list_all db = sort_with (λ (a b : Profile). leb a.created_at b.created_at) db.profiles

unfoldable pub get_active : Database → Option Profile
get_active db = find (λ (p : Profile). p.active) db.profiles

unfoldable pub get_by_id : ℕ → Database → Option Profile
get_by_id profile_id db = find (λ (p : Profile). p.id =ℕ profile_id) db.profiles

unfoldable pub get_by_name : String → Database → Option Profile
get_by_name name db = find (λ (p : Profile). p.name == name) db.profiles

unfoldable pub deactivate_all : Database → Database
deactivate_all db = record db {
  profiles = map (λ (p : Profile). record p { active = false }) db.profiles;
}
