-- ===== src/Engine/Startup.antt =====
-- How spikes/engine/kladosd.py starts: the end of `init_db`, which makes the first project and its key.
use Prim.Native.String.{◌++◌ as ◌<>◌}
use text.Mathlib.TextLemmas.{cons-append, cons≢nil}
use klados.Base.{
  ℕ, ◌+◌, String, ◌≡◌, sym, ◌∙◌, true, false, Option, none, some, List, [], ◌∷◌, ◌≟◌, ≟_iff, ≟_self,
  inl, inr, Bool-cases,
}
use klados.Base.Result.{ok}
use klados.Microvm.{VmSpec}
use klados.Schema.{Project, find, insert_project}
use klados.Engine.{Engine, Host, Exec, ◌>>=◌, ◌>>◌, pure, gets, lift, commit, new_id, now, new_key}
use klados.Engine.Accounts.{project_of_key}

-- `IMAGE`, which the environment may change, and `BAKED`
pub record Image : Type 0 where
  pub kernel : String
  pub rootfs : String
  pub init : String
  pub mem_mib : ℕ
  pub baked : String

-- `_spec`
unfoldable pub spec_of : Image → VmSpec
spec_of image = record {
  kernel = image.kernel;
  rootfs = image.rootfs;
  mem_mib = image.mem_mib;
  vcpus = 1;
  track_dirty = true;
  rootfs_read_only = true;
  scratch = some (image.baked <> "/scratch.ext4");
  vsock_uds = some (image.baked <> "/vm.vsock");
  vsock_cid = 3;
  boot_args = "console=ttyS0 reboot=k panic=1 pci=off init=" <> image.init;
}

module _ (h : Host) where
  -- the body of the `if`: the key that is written to root.key
  unfoldable pub first_project : Exec (Option String)
  first_project = do
    key ← new_key h
    pid ← new_id h
    t ← now h
    db ← gets (λ s. s.db)
    let row : Project = record {
      id = pid;
      name = "default";
      key_hash = h.sha256 key;
      created_at = t;
    }
    projects ← lift (insert_project row db)
    commit (record db { projects = projects })
    pure (some key)

  -- `if not con.execute("SELECT 1 FROM projects LIMIT 1").fetchone()`
  unfoldable pub bootstrap_for : List Project → Exec (Option String)
  unfolding first_project
  bootstrap_for [] s = first_project s
  bootstrap_for (p ∷ ps) s = (ok none, s)

  unfoldable pub bootstrap : Exec (Option String)
  unfolding bootstrap_for
  bootstrap s = bootstrap_for s.db.projects s

  key_filled : (t : String) → (("klados_" <> t) ≟ "") ≡ false
  key_filled t = elim (Bool-cases (("klados_" <> t) ≟ "")) [
    | inl empty ↦
        absurd (cons≢nil (sym (cons-append "k" "lados_" t) ∙ (≟_iff ("klados_" <> t) "").0 empty))
    | inr filled ↦ filled
  ]

  -- On a daemon with no projects the start makes one, and the key that it writes opens it; a later
  -- start changes nothing.
  pub bootstrap_opens :
      (s : Engine)
      → s.db.projects ≡ []
      → (key pid : String) × ((bootstrap s).0 ≡ ok (some key))
        × (project_of_key h key (bootstrap s).1.db ≡ some pid)
        × (bootstrap (bootstrap s).1 ≡ (ok none, (bootstrap s).1))
  unfolding bootstrap ◌>>=◌ new_key new_id now insert_project find project_of_key
  bootstrap_opens s e = (
    "klados_" <> h.token s.ticks,
    h.uuid (s.ticks + 1),
    simp e,
    simp (e, key_filled (h.token s.ticks), ≟_self (h.sha256 ("klados_" <> h.token s.ticks))),
    simp e,
  )
