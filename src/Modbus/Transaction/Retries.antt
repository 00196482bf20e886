-- ===== src/Modbus/Transaction/Retries.antt =====
-- When a transaction gives up, when it asks again, and what it then returns.
use mathlib.Core.List.{append_assoc, append-nil}
use rpinode.Modbus.Error.{ModbusError, exception, Exc, modbus, Result, ok, err}
use rpinode.Modbus.Error.Exceptions.{is_exception-exception}
use rpinode.Modbus.Socket.{Link}
use rpinode.Modbus.Transaction.{
  Protocol, Attempt, Txn, Gateway, attempt_once, as_modbus, is_final, pause_before_retry, retry,
  spacing, transaction,
}
use rpinode.Text.{Text}
use rpinode.Prelude.{
  ℕ, zero, suc, ◌+◌, ◌<◌, ◌≡◌, refl, sym, ◌∙◌, ap, ◌⊎◌, inl, inr, true, false, Option, none, some,
  List, [], ◌∷◌, ◌++◌, replicate, arith, Bool-cases,
}

Result-cases : (r : Result (List ℕ)) → ((body : List ℕ) × (r ≡ ok body)) ⊎ ((e : Exc) × (r ≡ err e))
Result-cases (ok body) = inl (body, refl)
Result-cases (err e) = inr (e, refl)

-- An attempt ends the call: with a body, or with an error of the slave itself.
pub data IsDecisive : Result (List ℕ) → Type 0 where
  replied : (body : List ℕ) → IsDecisive (ok body)
  refused : (e : Exc) → is_final e ≡ true → IsDecisive (err e)

module _ (run : Link → Result (List ℕ)) (network : ℕ → Attempt) where
  abbrev pub outcome : ℕ → Result (List ℕ)
  outcome k = run (network k).link

  -- The attempt failed for another reason than an answer of the slave.
  abbrev pub IsRetried : ℕ → Type 0
  IsRetried k = (e : Exc) × (outcome k ≡ err e) × (is_final e ≡ false)

  -- So did n attempts in a row.
  abbrev pub AreRetried : ℕ → ℕ → Type 0
  AreRetried k zero = Unit
  AreRetried k (suc n) = IsRetried k × AreRetried (k + 1) n

  -- The ways in which a call ends that has `left` attempts from attempt k on.
  pub data Ends (left k : ℕ) (pauses : List ℕ) (t : Txn) : Type 0 where
    decided :
        (n m : ℕ)
        → n < left
        → m ≡ k + n
        → AreRetried k n
        → IsDecisive (outcome m)
        → t.result ≡ outcome m
        → t.attempts ≡ m + 1
        → t.pauses ≡ pauses ++ replicate n 150
        → t.last_time ≡ (network m).over_at
        → Ends left k pauses t
    exhausted :
        (n m : ℕ) (e : Exc)
        → left ≡ n + 1
        → m ≡ k + n
        → AreRetried k left
        → outcome m ≡ err e
        → t.result ≡ err (modbus (as_modbus e))
        → t.attempts ≡ m + 1
        → t.pauses ≡ pauses ++ replicate n 150
        → t.last_time ≡ (network m).over_at
        → Ends left k pauses t

  -- One attempt more in front.
  Ends-again :
      (left k : ℕ) (pauses : List ℕ) (t : Txn)
      → IsRetried k
      → Ends (suc left) (k + 1) (pauses ++ 150 ∷ []) t
      → Ends (suc (suc left)) k pauses t
  Ends-again left k pauses t now (decided n m fits at before last result attempts paused time) =
      decided (suc n) m (omega arith) (omega arith) (now, before) last result attempts
        (paused ∙ append_assoc pauses (150 ∷ []) (replicate n 150)) time
  Ends-again left k pauses t now (exhausted n m e all at before last result attempts paused time) =
      exhausted (suc n) m e (omega arith) (omega arith) (now, before) last result attempts
        (paused ∙ append_assoc pauses (150 ∷ []) (replicate n 150)) time

  -- What a call leaves that ends with attempt k.
  abbrev stopped : ℕ → List ℕ → Result (List ℕ) → Txn
  stopped k pauses r = record {
    result = r;
    attempts = k + 1;
    pauses = pauses;
    last_time = (network k).over_at;
  }

  Ends-stopped :
      (left k : ℕ) (pauses : List ℕ) {r : Result (List ℕ)}
      → outcome k ≡ r
      → IsDecisive r
      → Ends (suc left) k pauses (stopped k pauses r)
  Ends-stopped left k pauses e d =
      decided 0 k (omega arith) (omega arith) tt (rw e d) (sym e) refl (sym (append-nil pauses))
        refl

  module _ (left k : ℕ) (last : Option ModbusError) (pauses : List ℕ) (time : ℕ) where
    retry_ok :
        (body : List ℕ)
        → outcome k ≡ ok body
        → retry run network (suc left) k last pauses time ≡ stopped k pauses (ok body)
    unfolding retry
    retry_ok body h = rw (h, retry)

    retry_final :
        (e : Exc)
        → outcome k ≡ err e
        → is_final e ≡ true
        → retry run network (suc left) k last pauses time ≡ stopped k pauses (err e)
    unfolding retry
    retry_final e h f = rw (h, retry, f)

    retry_again :
        (e : Exc)
        → outcome k ≡ err e
        → is_final e ≡ false
        → retry run network (suc left) k last pauses time
          ≡ retry run network left
              (k + 1)
              (some (as_modbus e))
              (pauses ++ pause_before_retry left)
              (network k).over_at
    unfolding retry
    retry_again e h f = rw (h, retry, f)

  retry_last :
      (k : ℕ) (pauses : List ℕ) (e : Exc)
      → IsRetried k
      → outcome k ≡ err e
      → Ends 1 k pauses
          (retry run network 0 (k + 1) (some (as_modbus e)) (pauses ++ []) (network k).over_at)
  unfolding retry
  retry_last k pauses e now h =
      exhausted 0 k e (omega arith) (omega arith) (now, tt) h refl refl refl refl

  retry_step :
      (left k : ℕ) (last : Option ModbusError) (pauses : List ℕ) (time : ℕ)
      → ((e : Exc)
          → outcome k ≡ err e
          → is_final e ≡ false
          → Ends (suc left) k pauses (
              retry run network left
                (k + 1)
                (some (as_modbus e))
                (pauses ++ pause_before_retry left)
                (network k).over_at))
      → Ends (suc left) k pauses (retry run network (suc left) k last pauses time)
  retry_step left k last pauses time next = elim (Result-cases (outcome k)) [
    | inl (body, e) ↦
        rw (retry_ok left k last pauses time body e) (Ends-stopped left k pauses e (replied body))
    | inr (e, h) ↦ elim (Bool-cases (is_final e)) [
      | inl final ↦
          rw (retry_final left k last pauses time e h final)
            (Ends-stopped left k pauses h (refused e final))
      | inr more ↦ rw (retry_again left k last pauses time e h more) (next e h more)
    ]
  ]

  retry-Ends :
      (left k : ℕ) (last : Option ModbusError) (pauses : List ℕ) (time : ℕ)
      → Ends (suc left) k pauses (retry run network (suc left) k last pauses time)
  retry-Ends zero k last pauses time =
      retry_step zero k last pauses time (λ e h more. retry_last k pauses e (e, h, more) h)
  retry-Ends (suc left) k last pauses time = retry_step (suc left) k last pauses time (λ e h more.
      Ends-again left k pauses _ (e, h, more)
        (retry-Ends left (k + 1) (some (as_modbus e)) (pauses ++ 150 ∷ []) (network k).over_at))

-- A transaction of retries + 1 attempts at most ends in one of two ways. Either an attempt is
-- decisive, having brought a body or an error of the slave itself: then every attempt before it
-- failed for another reason, the call returns or raises what that attempt did, and makes no
-- further attempt. Or every attempt failed so, and the error of the last one is raised. The pauses
-- are those that space it from the call before on the gateway, and one of 150 ms after each failed
-- attempt but the last of all; the time kept for the next call is that of the last attempt.
pub transaction-Ends :
    (protocol : Protocol) (address limit : Text) (retries : ℕ) (gateway : Gateway)
    (network : ℕ → Attempt)
    → Ends
        (attempt_once protocol address limit)
        network
        (suc retries)
        0
        (spacing gateway.last_time gateway.now)
        (transaction protocol address limit retries gateway network)
unfolding transaction
transaction-Ends protocol address limit retries gateway network =
    retry-Ends (attempt_once protocol address limit) network retries 0 none
      (spacing gateway.last_time gateway.now) gateway.last_time

-- A body at the first attempt is the result.
pub transaction_first :
    (protocol : Protocol) (address limit : Text) (retries : ℕ) (gateway : Gateway)
    (network : ℕ → Attempt) (body : List ℕ)
    → attempt_once protocol address limit (network 0).link ≡ ok body
    → (transaction protocol address limit retries gateway network).result ≡ ok body
unfolding transaction
transaction_first protocol address limit retries gateway network body h =
    ap (λ t. t.result)
      (retry_ok (attempt_once protocol address limit) network retries 0 none
        (spacing gateway.last_time gateway.now) gateway.last_time body h)

-- When the first attempt brings an exception of the slave itself, the call raises it and makes no
-- other attempt: its only pause is the one that spaces it from the call before.
pub transaction-exception :
    (protocol : Protocol) (address limit : Text) (retries : ℕ) (gateway : Gateway)
    (network : ℕ → Attempt) (code : ℕ)
    → attempt_once protocol address limit (network 0).link ≡ err (modbus (exception code))
    → transaction protocol address limit retries gateway network ≡ record {
      result = err (modbus (exception code));
      attempts = 1;
      pauses = spacing gateway.last_time gateway.now;
      last_time = (network 0).over_at;
    }
unfolding transaction is_final
transaction-exception protocol address limit retries gateway network code h =
    retry_final (attempt_once protocol address limit) network retries 0 none
      (spacing gateway.last_time gateway.now) gateway.last_time (modbus (exception code)) h
      (is_exception-exception code)
