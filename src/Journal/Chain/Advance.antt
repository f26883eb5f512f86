-- ===== src/Journal/Chain/Advance.antt =====
-- What advancing a Run by one phase does to its directory.
use simmis.Prelude.{◌≡◌, some, ok}
use simmis.Value.{Value}
use simmis.Files.{Directory}
use simmis.Host.{Host}
use simmis.Journal.Records.{Phase}
use simmis.Journal.Chain.{Chain, chain, prior_of, validate_next}
use simmis.Journal.Chain.Linked.{Follows}

module _ (host : Host) where
  -- What is published: a record that follows the prior one and was validated against the chain.
  pub record IsNext (phase : Phase) (d : Directory) (value : Value) : Type 0 where
    pub c : Chain
    pub adopted : chain host d ≡ ok c
    pub prior : Value
    pub prior_is : prior_of phase c ≡ some prior
    pub follows : Follows host value phase (some prior)
    pub valid : validate_next host phase value c prior ≡ ok tt
