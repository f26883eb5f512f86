-- ===== src/Tests/Namespace.antt =====
-- A run and an instance for worker_namespace.py.
use simmis.Prelude.{◌≡◌, refl, [], ◌∷◌, some, ok, list_beq}
use simmis.Host.{Host}
use simmis.Namespace.Request.{read_request, IsRequest, read_request-IsRequest}
use simmis.Paths.{is_refused, join, split}
use simmis.Tests.Sample.{host, frozen, config, raw_of, string}
use simmis.Value.{text, Bytes, Value, Items, dict}

abbrev request : Value
request = dict (
    (text "frozen", frozen)
    ∷ (text "config", config)
    ∷ (text "argv", Value.arr (Items.cons (string "/bin/true") Items.nil))
    ∷ [])

abbrev request_host : Host
request_host = record host { loads = λ b. some (raw_of request) }

abbrev line : Bytes
line = 123 ∷ 125 ∷ 10 ∷ []

accepted_request : read_request request_host line ≡ ok request
unfolding read_request raw_of is_refused join list_beq split
accepted_request = refl

read_request-IsRequest_example : IsRequest request_host line request
read_request-IsRequest_example = read_request-IsRequest request_host line accepted_request
