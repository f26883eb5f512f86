-- ===== src/Files/Laws.antt =====
-- Looking up after a creation or a removal.
use simmis.Prelude.{
  Bool-cases, inl, inr, false, ◌≡◌, refl, [], ◌∷◌, none, some, arith, ◌==◌, list_eq, nat_eq,
  list_beq_iff, ==_refl, if◌then◌else◌,
}
use simmis.Value.{Text, lookup}
use simmis.Files.{File, Directory, create, unlink}

pub lookup-create :
    (name k : Text) (f : File) (d : Directory)
    → lookup k (create name f d) ≡ (if k == name then some f else lookup k d)
unfolding lookup create
lookup-create name k f d = refl

pub lookup-unlink :
    (name k : Text) (d : Directory)
    → lookup k (unlink name d) ≡ (if k == name then none else lookup k d)
unfolding lookup unlink
lookup-unlink name k [] = ground arith
lookup-unlink name k ((j, f) ∷ d) =
    ground
      (arith, lookup-unlink name k d, list_beq_iff name j, list_beq_iff k j, list_beq_iff k name)

-- What other processes may do: a file that is there stays as it is.
pub record KeepsFile (others : Directory → Directory) (name : Text) (f : File) : Type 0 where
  pub kept : (d : Directory) → lookup name d ≡ some f → lookup name (others d) ≡ some f

-- What other processes may do: whatever file has this name stays as it is.
pub record Leaves (others : Directory → Directory) (name : Text) : Type 0 where
  pub left : (d : Directory) (f : File) → lookup name d ≡ some f → lookup name (others d) ≡ some f

-- A file that was created under a name and left alone is there.
pub lookup-left :
    (others : Directory → Directory) (name : Text) (f : File) (d : Directory)
    → Leaves others name
    → lookup name (others (create name f d)) ≡ some f
lookup-left others name f d l =
    l.left (create name f d) f (rw (lookup-create name name f d, ==_refl name) refl)

-- Creating a file whose name is free changes no file that is there.
pub lookup-create_free :
    (name k : Text) (f g : File) (d : Directory)
    → lookup name d ≡ none
    → lookup k d ≡ some f
    → lookup k (create name g d) ≡ some f
lookup-create_free name k f g d free there = elim (Bool-cases (k == name)) [
  | inl same ↦ let e = (list_beq_iff k name).0 same in cc
  | inr apart ↦ rw (lookup-create name k g d, apart) there
]

pub lookup-unlink_other :
    (name k : Text) (f : File) (d : Directory)
    → (k == name) ≡ false
    → lookup k d ≡ some f
    → lookup k (unlink name d) ≡ some f
lookup-unlink_other name k f d apart there = rw (lookup-unlink name k d, apart) there
