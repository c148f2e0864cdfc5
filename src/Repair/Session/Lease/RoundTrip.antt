-- ===== src/Repair/Session/Lease/RoundTrip.antt =====
-- A lease and its JSON mapping.
use repo_guard.Base.{◌≡◌, refl, true, Option, List, [], ◌∷◌}
use repo_guard.Base.Outcome.{ok, >>=-eq-ok}
use repo_guard.Agent.Json.{has_exactly}
use repo_guard.Repair.Records.Exact.{read_items, exact_mapping, construct}
use repo_guard.Repair.Records.Write.{to_items}
use repo_guard.Repair.Records.ReadsBack.{
  ReadsBack, IfGiven, optional-or_null, text_back, construct_valid, map-IfGiven,
}
use repo_guard.Repair.Records.Yields.{Yields, construct_yields, optional_yields}
use repo_guard.Repair.Session.Lease.{
  Label, ValidationRunLease, lease_is_valid, label_to_list, label_from_list, lease_keys,
  lease_to_dict, lease_from_dict, optional_lease_from_dict, optional_lease_to_dict,
}

abbrev pub IsLease : ValidationRunLease → Type 0
IsLease l = lease_is_valid l ≡ true

labels_back : (ls : List Label) → read_items label_from_list (to_items label_to_list ls) ≡ ok ls
labels_back [] = refl
labels_back (l ∷ ls) = rw (labels_back ls) refl

lease_reads : (l : ValidationRunLease) → IsLease l → ReadsBack lease_from_dict lease_to_dict l
unfolding lease_from_dict lease_to_dict exact_mapping has_exactly
lease_reads l h = (
  refl,
  rw (text_back l.container_id, labels_back l.labels, construct_valid lease_is_valid l h) refl,
)

-- A lease that has been built is read back from its mapping.
pub lease_round_trip :
    (o : Option ValidationRunLease)
    → IfGiven IsLease o
    → optional_lease_from_dict (optional_lease_to_dict o) ≡ ok o
unfolding optional_lease_from_dict optional_lease_to_dict
lease_round_trip o h =
    optional-or_null lease_from_dict lease_to_dict o (map-IfGiven o lease_reads h)

from_dict-IsLease : Yields lease_from_dict IsLease
unfolding lease_from_dict
from_dict-IsLease v l h =
    let (m, _, h1) = >>=-eq-ok (exact_mapping lease_keys v) _ h in
    let (built, _, h2) = >>=-eq-ok _ (construct lease_is_valid) h1 in
    (construct_yields lease_is_valid built l h2).0

-- What is read is a lease that has been built.
pub optional-IsLease : Yields optional_lease_from_dict (IfGiven IsLease)
unfolding optional_lease_from_dict
optional-IsLease = optional_yields lease_from_dict IsLease from_dict-IsLease
