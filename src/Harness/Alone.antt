-- ===== src/Harness/Alone.antt =====
-- The experiments without a vsock keep to the order of the calls: spike_a.py, spike_c.py,
-- spike_e_clock.py, spike_f_latency.py and smoke.py of spikes/harness.
use klados.Base.{false, []}
use klados.Harness.Lab.{base}
use klados.Harness.Discipline.{Desk, running, paused, fresh}
use klados.Harness.Leads.{Leads}
use klados.Harness.Orderly.{vm_of, one}

abbrev begun : Desk
begun = one 0 (vm_of base fresh false) []

abbrev runs : Desk
runs = one 0 (vm_of base running false) []

abbrev halted : Desk
halted = one 0 (vm_of base paused false) []
