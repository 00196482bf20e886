-- ===== src/Modbus/Probe/Tests.antt =====
-- A probe of a slave that never answers.
use rpinode.Modbus.Access.{Slave}
use rpinode.Modbus.Probe.{Findings, probe_range}
use rpinode.Modbus.Probe.Coverage.{IsFound, probe_range-IsFound}
use rpinode.Modbus.Socket.{refused, time_limit}
use rpinode.Modbus.Transaction.{tcp}
use rpinode.Text.{codes}
use rpinode.Prelude.{ℕ, ◌≡◌, some, List, [], ◌∷◌, All, arith}

abbrev silent : Slave
silent = record {
  protocol = tcp;
  address = codes "192.168.1.21";
  unit = 1;
  limit = codes "1.5";
  gateway = record { last_time = 0; now = 5000 };
  network = λ asked k. record { link = refused time_limit; over_at = 6500 };
}

-- Two functions, and a range whose last block is shorter.
probe_range-IsFound_example :
    (results : List (ℕ × Findings)) × (probe_range silent (1 ∷ 3 ∷ []) 100 130 16 [] ≡ some results)
    × All (IsFound silent 100 130 16 results) (1 ∷ 3 ∷ [])
probe_range-IsFound_example = probe_range-IsFound silent (1 ∷ 3 ∷ []) 100 130 16 (omega arith)
