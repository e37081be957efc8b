-- ===== src/Harness/Browsed.antt =====
-- The browser experiment keeps to the order of the calls: spikes/harness/spike_j_browser.py.
use klados.Base.{ℕ, Bool, true, false, [], ◌∷◌}
use klados.Harness.Lab.{base, of_base}
use klados.Harness.Discipline.{Desk, Vm, Phase, fresh, running, paused}
use klados.Harness.Leads.{Leads}
use klados.Harness.Siblings.{sockets}

-- the base with a directory of its own
abbrev base_in : Phase → Bool → Vm
base_in phase listens = record { name = base; place = of_base; phase = phase; listens = listens }

abbrev begun : ℕ → Desk
begun q = record { vms = base_in fresh false ∷ []; taken = []; quorum = q }

abbrev browsing : ℕ → Desk
browsing q = record { vms = base_in running true ∷ []; taken = of_base ∷ []; quorum = q }

abbrev frozen : ℕ → Desk
frozen q = record { vms = base_in paused true ∷ []; taken = of_base ∷ []; quorum = q }

abbrev left : ℕ → Desk
left q = record { vms = []; taken = of_base ∷ []; quorum = q }

-- No VM is left, and the sockets' files are.
abbrev pub over : ℕ → Desk
over n = record { vms = []; taken = sockets of_base n; quorum = n }
