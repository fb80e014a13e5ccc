-- ===== src/Installer/Files.antt =====
-- The files beside a base name, what the operating system does to them, and `recursiveOperation`.
use qtapplicationmanager.Prelude.{
  ◌≡◌, ◌≢◌, Bool, true, false, String, List, [], ◌∷◌, ◌++◌, Option, none, some,
}

pub data Suffix : Type 0 where
  no_suffix minus plus : Suffix

-- A path beside a base name: the base name with nothing, `-` or `+` behind it.
pub record Name : Type 0 where
  pub base : String
  pub suffix : Suffix

-- What is at a path; a file is its contents.
mutual
  pub data Tree : Type 0 where
    file : String → Tree
    directory : Entries → Tree

  pub data Entries : Type 0 where
    no_more : Entries
    entry : String → Tree → Entries → Entries

-- The calls of the operating system, on a disk of which only the trees at the names are seen. The
-- paths of the three calls that remove something are a name, and the way down from it.
pub record FileSystem : Type 1 where
  pub Disk : Type 0
  pub at : Disk → Name → Option Tree
  -- rename(2)
  pub rename : Name → Name → Disk → Disk × Bool
  -- QFile::setPermissions, QDir::rmdir and QFile::remove
  pub set_permissions : Name → List String → Disk → Disk × Bool
  pub remove_dir : Name → List String → Disk → Disk × Bool
  pub remove_file : Name → List String → Disk → Disk × Bool

-- A call of the first kind, by its name, leaves what is at other names alone.
abbrev pub Local : (fs : FileSystem) → (Name → List String → fs.Disk → fs.Disk × Bool) → Type 0
Local fs f =
    (n : Name) (below : List String) (d : fs.Disk) (k : Name)
    → k ≢ n
    → fs.at (f n below d).0 k ≡ fs.at d k

-- What POSIX says: a rename that works moves what was there, one that fails changes nothing.
pub record FileLaws (fs : FileSystem) : Type 0 where
  pub set_permissions_local : Local fs fs.set_permissions
  pub remove_dir_local : Local fs fs.remove_dir
  pub remove_file_local : Local fs fs.remove_file
  pub moved :
      (from to : Name) (d : fs.Disk)
      → from ≢ to
      → (fs.rename from to d).1 ≡ true
      → fs.at (fs.rename from to d).0 to ≡ fs.at d from
  pub vacated :
      (from to : Name) (d : fs.Disk)
      → from ≢ to
      → (fs.rename from to d).1 ≡ true
      → fs.at (fs.rename from to d).0 from ≡ none
  pub unmoved :
      (from to : Name) (d : fs.Disk) (k : Name)
      → (fs.rename from to d).1 ≡ false
      → fs.at (fs.rename from to d).0 k ≡ fs.at d k
  pub beside :
      (from to : Name) (d : fs.Disk) (k : Name)
      → k ≢ from
      → k ≢ to
      → fs.at (fs.rename from to d).0 k ≡ fs.at d k

pub data RecursiveOperationType : Type 0 where
  enter_directory leave_directory file_entry : RecursiveOperationType

module _ (fs : FileSystem) where
  abbrev pub Operation : Type 0
  Operation = Name → List String → RecursiveOperationType → fs.Disk → fs.Disk × Bool

  unfoldable pub safe_remove : Operation
  safe_remove n below enter_directory d = fs.set_permissions n below d
  safe_remove n below leave_directory d = fs.remove_dir n below d
  safe_remove n below file_entry d = fs.remove_file n below d

  -- A step, and the next one when it works.
  abbrev pub and_then : (fs.Disk × Bool) → (fs.Disk → fs.Disk × Bool) → fs.Disk × Bool
  and_then (d, true) f = f d
  and_then (d, false) f = (d, false)

  -- The recursion is on the tree that is found.
  unfoldable mutual
    pub walk : Operation → Tree → Name → List String → fs.Disk → fs.Disk × Bool
    walk op (file contents) n below d = op n below file_entry d
    walk op (directory entries) n below d = and_then (op n below enter_directory d) (λ entered.
        and_then (walk_entries op entries n below entered)
          (λ emptied. op n below leave_directory emptied))

    pub walk_entries : Operation → Entries → Name → List String → fs.Disk → fs.Disk × Bool
    walk_entries op no_more n below d = (d, true)
    walk_entries op (entry name tree rest) n below d =
        and_then (walk op tree n (below ++ name ∷ []) d)
          (λ cleared. walk_entries op rest n below cleared)

  -- What does not exist is not a directory.
  unfoldable pub recursive_operation : Operation → Name → fs.Disk → fs.Disk × Bool
  unfolding walk
  recursive_operation op n d = elim (fs.at d n) [
    | none ↦ op n [] file_entry d
    | some tree ↦ walk op tree n [] d
  ]

  -- `removeRecursiveHelper`: with a sudo client, its server runs the same.
  abbrev pub remove_recursive_helper : Name → fs.Disk → fs.Disk × Bool
  unfolding safe_remove recursive_operation
  remove_recursive_helper = recursive_operation safe_remove
