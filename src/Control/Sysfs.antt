-- ===== src/Control/Sysfs.antt =====
-- The sysfs files of the modules and the dispatch to their handlers: the tables of biology-proxy-ctl.c,
-- biology-proxy-dev-ctl.c, biology-gen-ctl.c and biology-gen-worker-ctl.c.
use biology.Base.{
  ℕ, ◌/◌, ◌%◌, ◌≡◌, refl, Bool, true, false, Option, none, some, List, [], ◌∷◌, ◌==◌, All,
}
use biology.Base.Errno.{Ret}
use biology.Kernel.{Vfs}
use biology.Control.Show.{active_show, traced_show, inflight_show}
use biology.Proxy.Requests.{Proxy}

-- `S_IRUSR` and `S_IWUSR`
abbrev pub s_irusr : ℕ
s_irusr = 256

abbrev pub s_iwusr : ℕ
s_iwusr = 128

-- A file of an object, with its mode and its functions, which may be null: `show` gives what is
-- written to the page and the size, `store` takes a text of a size.
pub record SysfsEntry (D : Type 0) : Type 0 where
  pub name : List ℕ
  pub mode : ℕ
  pub show : Option (D → List ℕ × ℕ)
  pub store : Option (D → List ℕ → ℕ → Option (D × Ret ℕ))

module _ {D : Type 0} where
  -- The calls through the pointers; a call of a null pointer is a fault.
  unfoldable pub call_show : Option (D → List ℕ × ℕ) → D → Option (List ℕ × ℕ)
  call_show none d = none
  call_show (some show) d = some (show d)

  unfoldable pub call_store :
      Option (D → List ℕ → ℕ → Option (D × Ret ℕ)) → D → List ℕ → ℕ → Option (D × Ret ℕ)
  call_store none d page cnt = none
  call_store (some store) d page cnt = store d page cnt

  -- `dev_ctl_sysfs_attr_show` and `dev_ctl_sysfs_attr_store`; those of the other three files are the
  -- same on their objects.
  unfoldable pub dev_ctl_attr_show : SysfsEntry D → D → Option (List ℕ × ℕ)
  unfolding call_show
  dev_ctl_attr_show entry d = call_show entry.show d

  unfoldable pub dev_ctl_attr_store : SysfsEntry D → D → List ℕ → ℕ → Option (D × Ret ℕ)
  unfolding call_store
  dev_ctl_attr_store entry d page cnt = call_store entry.store d page cnt

  unfoldable pub ctl_attr_show : SysfsEntry D → D → Option (List ℕ × ℕ)
  unfolding call_show
  ctl_attr_show entry d = call_show entry.show d

  unfoldable pub ctl_attr_store : SysfsEntry D → D → List ℕ → ℕ → Option (D × Ret ℕ)
  unfolding call_store
  ctl_attr_store entry d page cnt = call_store entry.store d page cnt

  unfoldable pub gen_attr_show : SysfsEntry D → D → Option (List ℕ × ℕ)
  unfolding call_show
  gen_attr_show entry d = call_show entry.show d

  unfoldable pub gen_attr_store : SysfsEntry D → D → List ℕ → ℕ → Option (D × Ret ℕ)
  unfolding call_store
  gen_attr_store entry d page cnt = call_store entry.store d page cnt

  unfoldable pub gen_group_attr_show : SysfsEntry D → D → Option (List ℕ × ℕ)
  unfolding call_show
  gen_group_attr_show entry d = call_show entry.show d

  unfoldable pub gen_group_attr_store : SysfsEntry D → D → List ℕ → ℕ → Option (D × Ret ℕ)
  unfolding call_store
  gen_group_attr_store entry d page cnt = call_store entry.store d page cnt

  -- The file "ctl", with the handler that takes its commands; each of the four files has one.
  abbrev pub entry_ctl : (D → List ℕ → ℕ → Option (D × Ret ℕ)) → SysfsEntry D
  entry_ctl store = record {
    name = b'c' ∷ b't' ∷ b'l' ∷ [];
    mode = s_iwusr;
    show = none;
    store = some store;
  }

  -- The tables of the proxy, of the generator and of a group.
  abbrev pub ctl_attrs : (D → List ℕ → ℕ → Option (D × Ret ℕ)) → List (SysfsEntry D)
  ctl_attrs store = entry_ctl store ∷ []

  abbrev pub gen_attrs : (D → List ℕ → ℕ → Option (D × Ret ℕ)) → List (SysfsEntry D)
  gen_attrs store = entry_ctl store ∷ []

  abbrev pub gen_group_attrs : (D → List ℕ → ℕ → Option (D × Ret ℕ)) → List (SysfsEntry D)
  gen_group_attrs store = entry_ctl store ∷ []

module _ {V : Vfs} where
  -- The files of a device that show its state.
  abbrev pub entry_active : SysfsEntry (Proxy V)
  entry_active = record {
    name = b'a' ∷ b'c' ∷ b't' ∷ b'i' ∷ b'v' ∷ b'e' ∷ [];
    mode = s_irusr;
    show = some (λ proxy. active_show proxy.dev.enabled);
    store = none;
  }

  abbrev pub entry_traced : SysfsEntry (Proxy V)
  entry_traced = record {
    name = b't' ∷ b'r' ∷ b'a' ∷ b'c' ∷ b'e' ∷ b'd' ∷ [];
    mode = s_irusr;
    show = some (λ proxy. traced_show proxy.dev.bio_id_counter);
    store = none;
  }

  abbrev pub entry_inflight : SysfsEntry (Proxy V)
  entry_inflight = record {
    name = b'i' ∷ b'n' ∷ b'f' ∷ b'l' ∷ b'i' ∷ b'g' ∷ b'h' ∷ b't' ∷ [];
    mode = s_irusr;
    show = some (λ proxy. inflight_show proxy.dev.bio_inflight);
    store = none;
  }

  -- The table of a device.
  abbrev pub dev_ctl_attrs :
      (Proxy V → List ℕ → ℕ → Option (Proxy V × Ret ℕ)) → List (SysfsEntry (Proxy V))
  dev_ctl_attrs store = entry_ctl store ∷ entry_active ∷ entry_traced ∷ entry_inflight ∷ []

-- The bits of a mode.
abbrev can_read : ℕ → Bool
can_read mode = mode / s_irusr % 2 == 1

abbrev can_write : ℕ → Bool
can_write mode = mode / s_iwusr % 2 == 1

-- Every file that a user can read has a `show`, and every one that can be written has a `store`.
IsServed : {D : Type 0} → SysfsEntry D → Type 0
IsServed entry = (can_read entry.mode ≡ has entry.show) × (can_write entry.mode ≡ has entry.store)
  where
    has : {A : Type 0} → Option A → Bool
    has none = false
    has (some x) = true

dev_ctl_attrs-IsServed :
    {V : Vfs} (store : Proxy V → List ℕ → ℕ → Option (Proxy V × Ret ℕ))
    → All IsServed (dev_ctl_attrs store)
unfolding IsServed
dev_ctl_attrs-IsServed store = ((refl, refl), ((refl, refl), ((refl, refl), ((refl, refl), tt))))
