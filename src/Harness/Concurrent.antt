-- ===== src/Harness/Concurrent.antt =====
-- The forks of spikes/harness/spike_i_concurrent.py keep to the order of the calls.
use klados.Harness.Leads.{Leads}
