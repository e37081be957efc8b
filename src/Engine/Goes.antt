-- ===== src/Engine/Goes.antt =====
-- Reasoning on functions of the daemon that return: with what, and in which state.
use klados.Base.{
  ℕ, zero, suc, ◌+◌, ◌≤◌, ◌≡◌, refl, ap, ◌∙◌, String, true, false, Option, none, some, [], ◌≟◌,
  arith, inl, inr, Bool-cases,
}
use klados.Base.Dict.{Dict, lookup, insert, contains, lookup-insert, lookup-insert_self}
use klados.Base.Result.{Result, ok}
use klados.Codec.{Bytes}
use klados.Agent.{Guest, Msg, handle, plain, pong, is_type}
use klados.Engine.{
  Files, SnapDir, Vm, Engine, Host, Exec, pure, gets, modify, or_raise, continue, ◌>>=◌, call,
}
use klados.Engine.Machines.{
  dir_or_empty, dir_of, set_vm, inherited, answered, asked, ask, is_pong, poll, wait_agent,
  place_scratch, boot_guest, boot_vm,
}

-- From a state, the function returns, and of the value and the new state `Q` holds.
pub record Goes {A : Type 0} (m : Exec A) (s : Engine) (Q : A → Engine → Type 0) : Type 0 where
  pub value : A
  pub state : Engine
  pub runs : m s ≡ (ok value, state)
  pub post : Q value state

module _ {A B : Type 0} where
  pub Goes-bind :
      (m : Exec A) (f : A → Exec B) (s : Engine) (Q : A → Engine → Type 0) (R : B → Engine → Type 0)
      → Goes m s Q
      → ((a : A) (s' : Engine) → Q a s' → Goes (f a) s' R)
      → Goes (m >>= f) s R
  unfolding ◌>>=◌ continue
  Goes-bind m f s Q R g k =
      let next = k g.value g.state g.post in
      record {
        value = next.value;
        state = next.state;
        runs = ap (λ (r : Result A × Engine). continue r.0 f r.1) g.runs ∙ next.runs;
        post = next.post;
      }

-- What is done to one instance: the tables and the snapshots stay, and the other VMs.
pub record Aside (iid : String) (s s' : Engine) : Type 0 where
  pub db : s'.db ≡ s.db
  pub dirs : s'.dirs ≡ s.dirs
  pub store : s'.store ≡ s.store
  pub later : s.ticks ≤ s'.ticks
  pub others : (j : String) → (iid ≟ j) ≡ false → lookup j s'.live ≡ lookup j s.live

pub Aside-refl : (iid : String) (s : Engine) → Aside iid s s
Aside-refl iid s = record {
  db = refl;
  dirs = refl;
  store = refl;
  later = omega arith;
  others = λ j n. refl;
}

pub Aside-trans : (iid : String) (s t u : Engine) → Aside iid s t → Aside iid t u → Aside iid s u
Aside-trans iid s t u a b = record {
  db = b.db ∙ a.db;
  dirs = b.dirs ∙ a.dirs;
  store = b.store ∙ a.store;
  later = omega (arith, a.later, b.later);
  others = λ j n. b.others j n ∙ a.others j n;
}

-- the VM of the instance, afterwards
pub record Holds (iid : String) (vm : Vm) (s s' : Engine) : Type 0 where
  pub aside : Aside iid s s'
  pub here : lookup iid s'.live ≡ some vm

Aside-set_vm : (iid : String) (vm : Vm) (s : Engine) → Holds iid vm s (set_vm iid vm s)
Aside-set_vm iid vm s = record {
  aside = record {
    db = refl;
    dirs = refl;
    store = refl;
    later = omega arith;
    others = λ j n. lookup-insert iid j vm s.live ∙ rw n refl;
  };
  here = lookup-insert_self iid vm s.live;
}

abbrev pub running : Guest → Vm
running g = record { guest = g; paused = false }

module _ (h : Host) (sure : (k : ℕ) → h.succeeds k ≡ true) where
  Goes-call :
      (what : String) (s : Engine)
      → Goes (call h what) s (λ _ s'. s' ≡ record s { ticks = s.ticks + 1 })
  unfolding call
  Goes-call what s = record {
    value = tt;
    state = record s { ticks = s.ticks + 1 };
    runs = rw (sure s.ticks) refl;
    post = refl;
  }

  pub Goes-ask :
      (iid : String) (m : Msg) (g : Guest) (s : Engine)
      → lookup iid s.live ≡ some (running g)
      → Goes
          (ask h iid m)
          s
          (λ r s'. (r ≡ (handle m g).0) × Holds iid (running (handle m g).1) s s')
  unfolding ask asked answered
  Goes-ask iid m g s here =
      let s₁ = record s { ticks = s.ticks + 1 } in
      let held = Aside-set_vm iid (running (handle m g).1) s₁ in
      record {
        value = (handle m g).0;
        state = set_vm iid (running (handle m g).1) s₁;
        runs = rw (here, sure s.ticks) refl;
        post = (
          refl,
          record {
            aside = record {
              db = held.aside.db;
              dirs = held.aside.dirs;
              store = held.aside.store;
              later = omega (arith, held.aside.later);
              others = held.aside.others;
            };
            here = held.here;
          },
        );
      }

  Goes-poll :
      (rounds : ℕ) (iid : String) (g : Guest) (s : Engine)
      → lookup iid s.live ≡ some (running g)
      → Goes (poll h rounds iid) s (λ _ s'. Holds iid (running g) s s')
  unfolding poll handle is_pong is_type
  Goes-poll zero iid g s here = record {
    value = false;
    state = s;
    runs = refl;
    post = record { aside = Aside-refl iid s; here = here };
  }
  Goes-poll (suc rounds) iid g s here =
      let asks = Goes-ask iid (plain "PING") g s here in
      let ponged : ask h iid (plain "PING") s ≡ (ok pong, asks.state) =
        asks.runs ∙ ap (λ r. (ok r, asks.state)) asks.post.0 in
      record { value = true; state = asks.state; runs = rw ponged refl; post = asks.post.1 }

  pub Goes-wait_agent :
      (iid : String) (g : Guest) (s : Engine)
      → lookup iid s.live ≡ some (running g)
      → Goes (wait_agent h iid) s (λ _ s'. Holds iid (running g) s s')
  unfolding wait_agent
  Goes-wait_agent iid g s here =
      let polls = Goes-poll (h.rounds s.ticks) iid g s here in
      record { value = polls.value; state = polls.state; runs = polls.runs; post = polls.post }

  -- a disk is placed: nothing else changes
  record Placed (s s' : Engine) : Type 0 where
    db : s'.db ≡ s.db
    dirs : s'.dirs ≡ s.dirs
    store : s'.store ≡ s.store
    live : s'.live ≡ s.live
    later : s.ticks ≤ s'.ticks

  Goes-place_scratch :
      (iid : String) (layer : Option Files) (s : Engine)
      → Goes (place_scratch h iid layer) s (λ _ s'. Placed s s')
  unfolding place_scratch ◌>>=◌ gets modify continue pure call
  Goes-place_scratch iid (some files) s = record {
    value = tt;
    state = record s { disks = insert iid files s.disks };
    runs = refl;
    post = record { db = refl; dirs = refl; store = refl; live = refl; later = omega arith };
  }
  Goes-place_scratch iid none s = elim (Bool-cases (contains iid s.disks)) [
    | inl there ↦ record {
      value = tt;
      state = s;
      runs = rw there refl;
      post = record { db = refl; dirs = refl; store = refl; live = refl; later = omega arith };
    }
    | inr absent ↦ record {
      value = tt;
      state = record s { disks = insert iid [] s.disks; ticks = s.ticks + 1 };
      runs = rw (absent, sure s.ticks) refl;
      post = record { db = refl; dirs = refl; store = refl; live = refl; later = omega arith };
    }
  ]

  -- A restored VM runs the guest that is in the memory file.
  pub Goes-boot_vm :
      (iid dir : String) (src : Option String) (g : Guest) (image : Bytes) (s : Engine)
      → (dir_of dir s).files.mem ≡ some image
      → h.thaw image ≡ some g
      → Goes (boot_vm h iid (some dir) src) s (λ _ s'. Holds iid (running g) s s')
  unfolding boot_vm boot_guest ◌>>=◌ gets modify continue pure or_raise call
  Goes-boot_vm iid dir src g image s mem thaws =
      let place = Goes-place_scratch iid (inherited src s) s in
      let s₁ = place.state in
      let mem₁ : (dir_of dir s₁).files.mem ≡ some image =
        ap (λ (ds : Dict SnapDir). (dir_or_empty (lookup dir ds)).files.mem) place.post.dirs
        ∙ mem in
      let s₂ : Engine = record s₁ { ticks = s₁.ticks + 1 + 1 } in
      let held = Aside-set_vm iid (running g) s₂ in
      record {
        value = tt;
        state = set_vm iid (running g) s₂;
        runs = rw (place.runs, sure s₁.ticks, sure (s₁.ticks + 1), mem₁, thaws) refl;
        post = record {
          aside = record {
            db = held.aside.db ∙ place.post.db;
            dirs = held.aside.dirs ∙ place.post.dirs;
            store = held.aside.store ∙ place.post.store;
            later = omega (arith, held.aside.later, place.post.later);
            others =
                λ j n. held.aside.others j n ∙ ap (λ (l : Dict Vm). lookup j l) place.post.live;
          };
          here = held.here;
        };
      }
