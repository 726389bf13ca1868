-- ===== src/Mounts/Tests.antt =====
-- The lookups of src/fs/mount.cpp and src/fs/fs.cpp on concrete lists.
use los_tac_os.Base.{ℕ, none, some, List, [], ◌∷◌}
use los_tac_os.Mounts.{Mount, find_mount}
use los_tac_os.Mounts.Find.{Found, find_mount-Found}

-- "/a", and a path in it.
abbrev one_mount : List Mount
one_mount = record { path = some (47 ∷ (97 ∷ [])); file_system = some 1; mount_data = 0 } ∷ []

abbrev inside_it : List ℕ
inside_it = 47 ∷ (97 ∷ (47 ∷ (98 ∷ [])))

find_mount-Found_example : Found one_mount inside_it none 0 (find_mount one_mount inside_it)
find_mount-Found_example = find_mount-Found one_mount inside_it

abbrev registered : List ℕ
registered = 1 ∷ []
