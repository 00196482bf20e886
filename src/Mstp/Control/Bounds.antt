-- ===== src/Mstp/Control/Bounds.antt =====
-- A session is started with parameters that are in their bounds, or not at all.
use rpinode.Prelude.Int.{pos, negsuc}
use rpinode.Mstp.Control.{
  Raw, absent, invalid, uncaught, number, Request, Params, Monitor, Outcome, no_device,
  already_running, raised, not_found, started, default_baud, baud_of, bounded, clean_params,
  is_mstp_baud, is_running, open_session, start_mstp_session,
}
use rpinode.Text.{Text, text_eq, strip}
use rpinode.Text.Contains.{text_eq_iff}
use rpinode.Prelude.{
  ℕ, ◌≤◌, ◌≡◌, ◌≢◌, ◌⊎◌, refl, inl, inr, Bool, true, false, none, some, [], arith, Bool-cases,
  Option-cases,
}

-- The parameters that the bus and the monitor can work with.
pub record IsParams (p : Params) : Type 0 where
  pub baud : is_mstp_baud p.baud ≡ true
  pub mac : p.mac ≤ 127
  pub max_master : p.max_master ≤ 127
  pub npoll : (1 ≤ p.npoll) × (p.npoll ≤ 50)
  pub cycle_ms : (5000 ≤ p.cycle_ms) × (p.cycle_ms ≤ 120000)
  pub sniff_ms : (1000 ≤ p.sniff_ms) × (p.sniff_ms ≤ 30000)

-- On no parameter does `int` raise an exception that is not caught.
pub record IsReadable (r : Request) : Type 0 where
  pub baud : r.baud ≢ uncaught
  pub mac : r.mac ≢ uncaught
  pub max_master : r.max_master ≢ uncaught
  pub npoll : r.npoll ≢ uncaught
  pub cycle_ms : r.cycle_ms ≢ uncaught
  pub sniff_ms : r.sniff_ms ≢ uncaught

baud_of-cases :
    (r : Raw)
    → ((r ≡ uncaught) × (baud_of r ≡ none))
      ⊎ ((n : ℕ) × (baud_of r ≡ some n) × (r ≢ uncaught) × (is_mstp_baud n ≡ true))
baud_of-cases absent = inr (_, refl, (λ e. cc), refl)
baud_of-cases invalid = inr (_, refl, (λ e. cc), refl)
baud_of-cases uncaught = inl (refl, refl)
baud_of-cases (number (negsuc n)) = inr (_, refl, (λ e. cc), refl)
baud_of-cases (number (pos n)) = elim (Bool-cases (is_mstp_baud n)) [
  | inl known ↦ inr (n, rw known refl, (λ e. cc), known)
  | inr other ↦ inr (default_baud, rw other refl, (λ e. cc), refl)
]

bounded-cases :
    (default lo hi : ℕ) (r : Raw)
    → lo ≤ default
    → default ≤ hi
    → ((r ≡ uncaught) × (bounded default lo hi r ≡ none))
      ⊎ ((n : ℕ) × (bounded default lo hi r ≡ some n) × (r ≢ uncaught) × (lo ≤ n) × (n ≤ hi))
bounded-cases default lo hi absent h g = inr (_, refl, (λ e. cc), omega arith, omega arith)
bounded-cases default lo hi invalid h g = inr (default, refl, (λ e. cc), h, g)
bounded-cases default lo hi uncaught h g = inl (refl, refl)
bounded-cases default lo hi (number (pos n)) h g =
    inr (_, refl, (λ e. cc), omega arith, omega arith)
bounded-cases default lo hi (number (negsuc n)) h g =
    inr (_, refl, (λ e. cc), omega arith, omega arith)

-- What reading the parameters ends in.
abbrev AreRead : Text → Request → Type 0
AreRead device r =
    ((clean_params device r ≡ none) × ¬ IsReadable r)
    ⊎ ((p : Params) × (clean_params device r ≡ some p)
        × (p.device ≡ device)
        × IsReadable r
        × IsParams p)

clean_params-AreRead : (device : Text) (r : Request) → AreRead device r
unfolding clean_params
clean_params-AreRead device r = elim (baud_of-cases r.baud) [
  | inl (bad, e0) ↦ inl (rw (e0, clean_params) refl, λ k. k.baud bad)
  | inr (baud, e0, ok0, known) ↦ elim (bounded-cases 127 0 127 r.mac (omega arith) (omega arith)) [
    | inl (bad, e1) ↦ inl (rw (e0, clean_params, e1) refl, λ k. k.mac bad)
    | inr (mac, e1, ok1, lo1, hi1) ↦
        elim (bounded-cases 127 0 127 r.max_master (omega arith) (omega arith)) [
          | inl (bad, e2) ↦ inl (rw (e0, clean_params, e1, e2) refl, λ k. k.max_master bad)
          | inr (max_master, e2, ok2, lo2, hi2) ↦
              elim (bounded-cases 2 1 50 r.npoll (omega arith) (omega arith)) [
                | inl (bad, e3) ↦ inl (rw (e0, clean_params, e1, e2, e3) refl, λ k. k.npoll bad)
                | inr (npoll, e3, ok3, lo3, hi3) ↦
                    elim (bounded-cases 20000 5000 120000 r.cycle_ms (omega arith) (omega arith)) [
                      | inl (bad, e4) ↦
                          inl (rw (e0, clean_params, e1, e2, e3, e4) refl, λ k. k.cycle_ms bad)
                      | inr (cycle_ms, e4, ok4, lo4, hi4) ↦
                          elim (bounded-cases 5000 1000 30000 r.sniff_ms (omega arith)
                            (omega arith)) [
                              | inl (bad, e5) ↦ inl (
                                rw (e0, clean_params, e1, e2, e3, e4, e5) refl,
                                λ k. k.sniff_ms bad,
                              )
                              | inr (sniff_ms, e5, ok5, lo5, hi5) ↦ inr (
                                record {
                                  device = device;
                                  baud = baud;
                                  mac = mac;
                                  max_master = max_master;
                                  npoll = npoll;
                                  cycle_ms = cycle_ms;
                                  sniff_ms = sniff_ms;
                                },
                                rw (e0, clean_params, e1, e2, e3, e4, e5) refl,
                                refl,
                                record {
                                  baud = ok0;
                                  mac = ok1;
                                  max_master = ok2;
                                  npoll = ok3;
                                  cycle_ms = ok4;
                                  sniff_ms = ok5;
                                },
                                record {
                                  baud = known;
                                  mac = hi1;
                                  max_master = hi2;
                                  npoll = (lo3, hi3);
                                  cycle_ms = (lo4, hi4);
                                  sniff_ms = (lo5, hi5);
                                },
                              )
                            ]
                    ]
              ]
        ]
  ]
]

-- What a request to start makes of the monitor.
pub data IsStart (exists : Text → Bool) (r : Request) (m : Monitor)
    : Outcome × Monitor → Type 0 where
  no_text : r.device ≡ none → IsStart exists r m (raised, m)
  unnamed : (d : Text) → r.device ≡ some d → strip d ≡ [] → IsStart exists r m (no_device, m)
  missing :
      (d : Text)
      → r.device ≡ some d
      → strip d ≢ []
      → exists (strip d) ≡ false
      → IsStart exists r m (not_found (strip d), m)
  unreadable :
      (d : Text)
      → r.device ≡ some d
      → strip d ≢ []
      → exists (strip d) ≡ true
      → ¬ IsReadable r
      → IsStart exists r m (raised, m)
  busy :
      (d : Text)
      → r.device ≡ some d
      → strip d ≢ []
      → exists (strip d) ≡ true
      → IsReadable r
      → is_running m ≡ true
      → IsStart exists r m (already_running, m)
  begun :
      (d : Text) (p : Params)
      → r.device ≡ some d
      → strip d ≢ []
      → exists (strip d) ≡ true
      → IsReadable r
      → is_running m ≡ false
      → p.device ≡ strip d
      → IsParams p
      → IsStart exists r m (started p.device p.baud, record { session = some p; running = true })

open_session-IsStart :
    (exists : Text → Bool) (r : Request) (m : Monitor) (d : Text)
    → r.device ≡ some d
    → strip d ≢ []
    → exists (strip d) ≡ true
    → IsStart exists r m (open_session (clean_params (strip d) r) m)
open_session-IsStart exists r m d e named there = elim (clean_params-AreRead (strip d) r) [
  | inl (bad, stuck) ↦ rw bad (unreadable d e named there stuck)
  | inr (p, good, own, readable, inside) ↦ elim (Bool-cases (is_running m)) [
    | inl runs ↦ rw (good, runs) (busy d e named there readable runs)
    | inr free ↦ rw (good, free) (begun d p e named there readable free own inside)
  ]
]

-- A request to start ends with an exception exactly when its device is not a text, or when its device
-- is named and exists and a parameter is one on which `int` raises another exception than that for
-- a text that is no number, such as null. It is refused when it names no device, when its device does
-- not exist, or, its parameters read, when a session is running. In all these cases the monitor stays
-- as it was. Otherwise a session runs on the device named with a speed that the bus knows and every
-- other parameter in its bounds, for numbers below or above the bounds, negative ones, texts that are
-- no number, and where there is no value.
pub start_mstp_session-IsStart :
    (exists : Text → Bool) (r : Request) (m : Monitor)
    → IsStart exists r m (start_mstp_session exists r m)
unfolding start_mstp_session
start_mstp_session-IsStart exists r m = elim (Option-cases r.device) [
  | inl other ↦ simp (other, start_mstp_session) (no_text other)
  | inr (d, text) ↦ elim (Bool-cases (text_eq (strip d) [])) [
    | inl empty ↦
        simp (text, start_mstp_session, empty) (unnamed d text ((text_eq_iff _ _).0 empty))
    | inr filled ↦
        let named : strip d ≢ [] = λ e. ground (arith, (text_eq_iff (strip d) []).1 e) in
        elim (Bool-cases (exists (strip d))) [
          | inl there ↦
              simp (text, start_mstp_session, filled, there)
                (open_session-IsStart exists r m d text named there)
          | inr gone ↦ simp (text, start_mstp_session, filled, gone) (missing d text named gone)
        ]
  ]
]
