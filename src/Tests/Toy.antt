-- ===== src/Tests/Toy.antt =====
-- A host whose floats are fixed-point numbers, with six decimals, and an event.
use reliamesh.Prelude.{
  ℕ, zero, suc, ◌+◌, ◌-◌, ◌*◌, ◌/◌, ◌^◌, true, none, some, Text, text, ltb, leb, if◌then◌else◌,
  Result, ok, err,
}
use reliamesh.Host.{Host, Instant, unix_epoch, seconds}
use reliamesh.Protocol.Json.{decimal_text}
use reliamesh.Protocol.Event.{Event, Operation, Outcome}

-- the largest root of at most `n` bits above `root`
abbrev root_from : ℕ → ℕ → ℕ → ℕ
root_from zero x root = root
root_from (suc n) x root =
    if leb ((root + 2 ^ n) * (root + 2 ^ n)) x
    then root_from n x (root + 2 ^ n)
    else root_from n x root

abbrev pub toy : Host
toy = record {
  Float = ℕ;
  of_ℕ = λ n. n * 1_000_000;
  decimal = λ m e. m * 1_000_000 / 10 ^ e;
  add = λ a b. a + b;
  sub = λ a b. a - b;
  mul = λ a b. a * b / 1_000_000;
  div = λ a b. a * 1_000_000 / b;
  sqrt = λ a. root_from 24 (a * 1_000_000) 0;
  lt = ltb;
  round6 = λ a. a;
  repr = decimal_text;
  isoformat = decimal_text;
  sha256 = λ t. t;
}

-- 2026-01-01T00:00:00Z
abbrev pub morning : Instant
morning = unix_epoch + seconds 1_767_225_600

abbrev pub event_at : Text → Instant → Event toy
event_at id t = record {
  event_id = id;
  timestamp = t;
  deployment_id = text "d";
  agent_id = text "a";
  operation = Operation.agent;
  outcome = Outcome.success;
  failure_type = none;
  latency_ms = some 5_000_000;
  input_tokens = none;
  output_tokens = none;
  retry_count = some 1;
  label = λ field. none;
  synthetic = true;
}

abbrev pub first : Event toy
first = event_at (text "e1") morning

abbrev pub second : Event toy
second = event_at (text "e2") (morning + seconds 1)

-- what a call returns, or the default where it raises
abbrev pub value_or : {E A : Type 0} → A → Result E A → A
value_or a (ok x) = x
value_or a (err e) = a
