-- ===== src/Examples/Members.antt =====
-- Runs of the houses and their members.
use roomies.Base.{true, some, List, [], ◌∷◌, arith}
use roomies.Models.{member}
use roomies.Houses.{Houses}
use roomies.Houses.Managed.{IsManaged}
use roomies.Houses.Requests.{Request, create, update_role, remove, handle_all, handle_all-IsManaged}

abbrev empty_houses : Houses
empty_houses = record { houses = []; members = []; events = [] }

abbrev requests : List Request
requests =
    create 7 1 11 0 (some "home") ∷ remove 7 11 11 ∷ update_role 7 11 11 (some (some member)) ∷ []

empty_IsManaged : IsManaged empty_houses
empty_IsManaged = record { unique = λ h u. omega arith; managed = tt }

handle_all-IsManaged_example : IsManaged (handle_all true requests empty_houses)
handle_all-IsManaged_example = handle_all-IsManaged true requests empty_houses empty_IsManaged
