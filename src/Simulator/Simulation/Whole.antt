-- ===== src/Simulator/Simulation/Whole.antt =====
-- The program of simulator/ as a whole, from nothing.
use fabric_simulator.Platform.{Platform}
use fabric_simulator.Exec.{Exec}
