-- ===== src/Claim/Kept.antt =====
-- The files of a directory in which a claim is prepared.
use simmis.Prelude.{◌≡◌, refl, false, ◌==◌, list_eq, nat_eq, Option, none, some, Result, ok, err}
use simmis.Files.{File, Directory, create}
use simmis.Files.Laws.{KeepsFile, lookup-create_free, lookup-unlink_other}
use simmis.Host.{Host}
use simmis.Claim.{
  staged_name, ticket_file, link_over, stage_over, prepare_over, prepare_for, identities, prepare,
  new_ticket,
}
use simmis.Value.{Text, Value, lookup}

module _ (host : Host) where
  link_over-keeps :
      (staged target : Option File) (name k : Text) (t : Value) (d : Directory) (f : File)
      → lookup name d ≡ target
      → lookup k d ≡ some f
      → lookup k (link_over host staged target name t d).1 ≡ some f
  unfolding link_over
  link_over-keeps none _ name k t d f at there = there
  link_over-keeps (some g) none name k t d f free there = lookup-create_free name k f g d free there
  link_over-keeps (some g) (some h) name k t d f taken there = there

  module _ (others : Directory → Directory) (hex k : Text) (f : File)
      (apart : (k == staged_name hex) ≡ false) (keeps : KeepsFile others k f) where
    stage_over-keeps :
        (o : Option File) (name worker run : Text) (t : Value) (d : Directory)
        → lookup (staged_name hex) d ≡ o
        → lookup k d ≡ some f
        → lookup k (stage_over host o others hex name worker run t d).1 ≡ some f
    unfolding stage_over
    stage_over-keeps none name worker run t d free there =
        let made = others (create (staged_name hex) (ticket_file host t) d) in
        lookup-unlink_other (staged_name hex) k f
          (link_over host (lookup (staged_name hex) made) (lookup name made) name t made).1 apart
          (link_over-keeps (lookup (staged_name hex) made) (lookup name made) name k t made f refl (
            keeps.kept (create (staged_name hex) (ticket_file host t) d)
              (lookup-create_free (staged_name hex) k f (ticket_file host t) d free there)))
    stage_over-keeps (some g) name worker run t d taken there =
        lookup-unlink_other (staged_name hex) k f d apart there

    prepare_over-keeps :
        (o : Option File) (name worker run : Text) (t : Value) (d : Directory)
        → lookup k d ≡ some f
        → lookup k (prepare_over host o others hex name worker run t d).1 ≡ some f
    unfolding prepare_over
    prepare_over-keeps none name worker run t d there =
        stage_over-keeps (lookup (staged_name hex) d) name worker run t d refl there
    prepare_over-keeps (some g) name worker run t d there = there

    prepare_for-keeps :
        (i : Result (Text × Text)) (nonce proof name : Text) (d : Directory)
        → lookup k d ≡ some f
        → lookup k (prepare_for host i others hex nonce proof name d).1 ≡ some f
    unfolding prepare_for
    prepare_for-keeps (err e) nonce proof name d there = there
    prepare_for-keeps (ok (worker, run)) nonce proof name d there =
        prepare_over-keeps (lookup name d) name worker run (new_ticket worker run nonce proof) d
          there

    -- A file that is there under a name which is not this staging name, as every ticket is, is the
    -- same file after a claim is prepared under any name, its own included, whoever it is for,
    -- whether it was readable or not, on every path, errors included, as long as the other processes
    -- keep it.
    pub prepare-keeps :
        (nonce proof name : Text) (worker run : Value) (d : Directory)
        → lookup k d ≡ some f
        → lookup k (prepare host others hex nonce proof name worker run d).1 ≡ some f
    unfolding prepare
    prepare-keeps nonce proof name worker run d there =
        prepare_for-keeps (identities worker run) nonce proof name d there
