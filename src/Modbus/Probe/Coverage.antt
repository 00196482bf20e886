-- ===== src/Modbus/Probe/Coverage.antt =====
-- The probe ends, and looks at every address of its range exactly once.
use rpinode.Modbus.Error.{
  modbus, index_error, struct_error, Kind, illegal, timeout, other, Result, ok, err,
  classify_modbus_error, message,
}
use rpinode.Modbus.Probe.{
  Values, Findings, no_findings, visit, scan, count_kind, block_size, read_block, probe_range,
}
use rpinode.Modbus.Access.{Slave}
use rpinode.Dict.{get, put, nat_eq, get-put, get-put_self}
use native.Mathlib.Nat.{zero-add}
use mathlib.Core.Path.{subst}
use rpinode.Prelude.{
  ℕ, zero, suc, ◌+◌, ◌-◌, ◌≤◌, ◌<◌, ◌≡◌, refl, ◌∙◌, some, List, [], ◌∷◌, min, ltb, length,
  length-append, inl, inr, Bool-cases, arith, All, ◌==◌,
}

-- Blocks (address, length) of at most `count` addresses each, one behind the other, from `addr` to
-- `end` and no further.
abbrev pub Covers : ℕ → ℕ → ℕ → List (ℕ × ℕ) → Type 0
Covers count end addr [] = end < addr
Covers count end addr ((a, c) ∷ blocks) =
    (a ≡ addr) × (1 ≤ c) × (c ≤ count) × (a + c ≤ end + 1) × Covers count end (addr + c) blocks

module _ (read : ℕ → ℕ → Result Values) where
  -- Each block is read once, in order.
  abbrev pub visit_all : List (ℕ × ℕ) → Findings → Findings
  visit_all [] f = f
  visit_all ((a, c) ∷ blocks) f = visit_all blocks (visit (read a c) a f)

abbrev pub total : Findings → ℕ
total f = length f.found + f.illegal_count + f.other_count + f.timeouts

total-count_kind : (k : Kind) (f : Findings) → total (count_kind k f) ≡ total f + 1
total-count_kind illegal f = omega arith
total-count_kind timeout f = omega arith
total-count_kind other f = omega arith

total-visit : (r : Result Values) (addr : ℕ) (f : Findings) → total (visit r addr f) ≡ total f + 1
unfolding visit
total-visit (ok vals) addr f = omega (arith, length-append f.found ((addr, vals) ∷ []))
total-visit (err (modbus e)) addr f = total-count_kind (classify_modbus_error (message e)) f
total-visit (err index_error) addr f = omega arith
total-visit (err struct_error) addr f = omega arith

total-visit_all :
    (read : ℕ → ℕ → Result Values) (blocks : List (ℕ × ℕ)) (f : Findings)
    → total (visit_all read blocks f) ≡ total f + length blocks
total-visit_all read [] f = omega arith
total-visit_all read ((a, c) ∷ blocks) f =
    omega (arith, total-visit (read a c) a f, total-visit_all read blocks (visit (read a c) a f))

scan-Covers :
    (read : ℕ → ℕ → Result Values) (count end fuel addr : ℕ) (f : Findings)
    → 1 ≤ count
    → 0 < fuel
    → end + 1 < fuel + addr
    → (blocks : List (ℕ × ℕ)) × Covers count end addr blocks
      × (scan read count end fuel addr f ≡ some (visit_all read blocks f))
unfolding scan
scan-Covers read count end zero addr f one some_fuel enough = elim some_fuel [ ]
scan-Covers read count end (suc fuel) addr f one some_fuel enough =
    elim (Bool-cases (ltb end addr)) [
      | inl past ↦ ([], ground arith, rw past)
      | inr inside ↦
          let c : ℕ = min count (end + 1 - addr) in
          let within : addr ≤ end = ground arith in
          let (blocks, covered, e) =
            scan-Covers read count end fuel (addr + c) (visit (read addr c) addr f) one
              (omega arith) (omega arith) in
          ((addr, c) ∷ blocks, (refl, omega arith, omega arith, omega arith, covered), rw inside e)
    ]

scan_range-Covers :
    (read : ℕ → ℕ → Result Values) (count start end : ℕ)
    → 1 ≤ count
    → start ≤ end
    → (blocks : List (ℕ × ℕ)) × Covers count end start blocks
      × (scan read count end (end + 2 - start) start no_findings
          ≡ some (visit_all read blocks no_findings))
      × (total (visit_all read blocks no_findings) ≡ length blocks)
scan_range-Covers read count start end one order =
    let (blocks, covered, e) =
      scan-Covers read count end (end + 2 - start) start no_findings one (omega arith)
        (omega arith) in
    (blocks, covered, e, total-visit_all read blocks no_findings ∙ zero-add (length blocks))

-- What is found on one function: blocks that cover the range, each read once, each counted once.
abbrev pub IsProbed : Slave → ℕ → ℕ → ℕ → ℕ → Findings → Type 0
IsProbed s start end block func f =
    (blocks : List (ℕ × ℕ)) × Covers (block_size func block) end start blocks
    × (f ≡ visit_all (read_block s func) blocks no_findings)
    × (total f ≡ length blocks)

module _ (s : Slave) (start end block : ℕ) (order : start ≤ end) where
  block_size-pos : (func : ℕ) → 1 ≤ block_size func block
  unfolding block_size
  block_size-pos func = omega arith

  one :
      (func : ℕ)
      → (f : Findings) × (scan
            (read_block s func)
            (block_size func block)
            end
            (end + 2 - start)
            start
            no_findings
          ≡ some f)
        × IsProbed s start end block func f
  one func =
      let (blocks, covered, e, counted) =
        scan_range-Covers (read_block s func) (block_size func block) start end
          (block_size-pos func) order in
      (_, e, (blocks, covered, refl, counted))

  put_all : List ℕ → List (ℕ × Findings) → List (ℕ × Findings)
  put_all [] d = d
  put_all (func ∷ funcs) d = put_all funcs (put func (one func).0 d)

  probe_range-put_all :
      (funcs : List ℕ) (d : List (ℕ × Findings))
      → probe_range s funcs start end block d ≡ some (put_all funcs d)
  unfolding probe_range put_all
  probe_range-put_all [] d = refl
  probe_range-put_all (func ∷ funcs) d =
      rw ((one func).1, probe_range) (probe_range-put_all funcs (put func (one func).0 d))

  HasProbed : List (ℕ × Findings) → ℕ → Type 0
  HasProbed d func = get func d ≡ some (one func).0

  HasProbed-put :
      (d : List (ℕ × Findings)) (j func : ℕ) → HasProbed d j → HasProbed (put func (one func).0 d) j
  unfolding HasProbed
  HasProbed-put d j func h = elim (Bool-cases (func == j)) [
    | inl same ↦
        let e : func ≡ j = ground arith in
        subst (λ (k : ℕ). get k (put func (one func).0 d) ≡ some (one k).0) e
          (get-put_self func (one func).0 d)
    | inr apart ↦ get-put func j (one func).0 d ∙ rw apart h
  ]

  put_all-keeps :
      (funcs : List ℕ) (d : List (ℕ × Findings)) (j : ℕ)
      → HasProbed d j
      → HasProbed (put_all funcs d) j
  unfolding put_all
  put_all-keeps [] d j h = h
  put_all-keeps (func ∷ funcs) d j h =
      put_all-keeps funcs (put func (one func).0 d) j (HasProbed-put d j func h)

  put_all-HasProbed :
      (funcs : List ℕ) (d : List (ℕ × Findings)) → All (HasProbed (put_all funcs d)) funcs
  unfolding put_all
  put_all-HasProbed [] d = tt
  put_all-HasProbed (func ∷ funcs) d = (
    put_all-keeps funcs (put func (one func).0 d) func
        (unfold HasProbed in get-put_self func (one func).0 d),
    put_all-HasProbed funcs (put func (one func).0 d),
  )

abbrev pub IsFound : Slave → ℕ → ℕ → ℕ → List (ℕ × Findings) → ℕ → Type 0
IsFound s start end block results func =
    (f : Findings) × (get func results ≡ some f) × IsProbed s start end block func f

All-IsFound :
    (s : Slave) (start end block : ℕ) (order : start ≤ end) (d : List (ℕ × Findings))
    (funcs : List ℕ)
    → All (HasProbed s start end block order d) funcs
    → All (IsFound s start end block d) funcs
All-IsFound s start end block order d [] h = tt
All-IsFound s start end block order d (func ∷ funcs) (h, hs) = (
  unfold HasProbed in (_, h, (one s start end block order func).2),
  All-IsFound s start end block order d funcs hs,
)

-- A probe of a range that is not empty ends, with a result for every function asked for: blocks of
-- at most the block size, one behind the other from the first address to the last and no further,
-- are read once each, and the found blocks, the illegal ones, the timeouts and the other errors add
-- up to the number of blocks.
pub probe_range-IsFound :
    (s : Slave) (funcs : List ℕ) (start end block : ℕ)
    → start ≤ end
    → (results : List (ℕ × Findings)) × (probe_range s funcs start end block [] ≡ some results)
      × All (IsFound s start end block results) funcs
probe_range-IsFound s funcs start end block order = (
  put_all s start end block order funcs [],
  probe_range-put_all s start end block order funcs [],
  All-IsFound s start end block order _ funcs (put_all-HasProbed s start end block order funcs []),
)
