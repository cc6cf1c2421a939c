-- ===== src/Dma/Session.antt =====
-- Any sequence of calls into shim_dma.c.
use mathlib.Core.Path.{subst}
use cudy_wr3600_openwrt.Prelude.{
  Option, Result, err, none, ok, some, All, List, [], false, inl, inr, refl, ◌∷◌, ◌≡◌, arith, sym,
  ◌∙◌, Bool, if◌then◌else◌, update, ℕ, ◌+◌, ◌-◌, ◌<◌, ◌==◌, ◌≢◌,
}
use cudy_wr3600_openwrt.Dma.{
  scan, bind_at, Dma, Native, bind, unbind, dma419_device, put_device, arch_setup, hnd_kfree,
}
use cudy_wr3600_openwrt.Slots.{vacant}
use cudy_wr3600_openwrt.Slots.Laws.{IsSlot, IsRegistry}
use cudy_wr3600_openwrt.Dma.Registry.{IsDma, bind-IsDma, unbind-IsDma}
use cudy_wr3600_openwrt.Dma.Ops.{Api}
use cudy_wr3600_openwrt.Dma.Table.{
  Op, perform, Kept, perform-Kept, IsChecked, Issued, perform-Issued,
}

-- The references that callers of shim_dma_get_device hold, after one more or one less on a device.
abbrev pub lend : ℕ → (ℕ → ℕ) → ℕ → ℕ
lend dev lent = if dev == 0 then lent else update lent dev (lent dev + 1)

abbrev pub take_back : ℕ → (ℕ → ℕ) → ℕ → ℕ
take_back dev lent = update lent dev (lent dev - 1)

-- A call into the shim, and `put_device` of a device that shim_dma_get_device gave out.
pub data Step (a : Api) (lent : ℕ → ℕ) (d : Dma) : (ℕ → ℕ) → Dma → Type 0 where
  binds : (old native : ℕ) → Step a lent d lent (bind old native d).1
  unbinds : (old : ℕ) → Step a lent d lent (unbind old d)
  performs : (old : ℕ) (op : Op) → Step a lent d lent (perform a old op d)
  sets_up :
      (old base size : ℕ) (iommu coherent : Bool)
      → Step a lent d lent (arch_setup old base size iommu coherent d)
  kfrees : (ptr : ℕ) → Step a lent d lent (hnd_kfree ptr d)
  gets : (old : ℕ) → Step a lent d (lend (dma419_device old d).0 lent) (dma419_device old d).1
  puts : (dev : ℕ) → dev ≢ 0 → 0 < lent dev → Step a lent d (take_back dev lent) (put_device dev d)

pub data Reach (a : Api) (lent : ℕ → ℕ) (d : Dma) : (ℕ → ℕ) → Dma → Type 0 where
  here : Reach a lent d lent d
  next :
      {lent1 lent2 : ℕ → ℕ} {t u : Dma}
      → Reach a lent d lent1 t
      → Step a lent1 t lent2 u
      → Reach a lent d lent2 u

Kept-IsDma : {lent : ℕ → ℕ} {d t : Dma} → Kept d t → IsDma lent d → IsDma lent t
Kept-IsDma {lent} {d} {t} k v = record {
  registry = subst IsRegistry (sym k.slots) v.registry;
  counted = λ n hn. rw k.slots (k.refs n ∙ v.counted n hn);
}

arch_setup-IsDma :
    {lent : ℕ → ℕ} (old base size : ℕ) (iommu coherent : Bool) (d : Dma)
    → IsDma lent d
    → IsDma lent (arch_setup old base size iommu coherent d)
unfolding arch_setup
arch_setup-IsDma old base size iommu coherent d v =
    let w = bind-IsDma old d.mlo_device d v in ground (arith, v, w)

hnd_kfree-IsDma : {lent : ℕ → ℕ} (ptr : ℕ) (d : Dma) → IsDma lent d → IsDma lent (hnd_kfree ptr d)
unfolding hnd_kfree
hnd_kfree-IsDma {lent} ptr d v =
    let forgotten : IsDma lent (record d { mlo_key = 0 }) = record {
      registry = v.registry;
      counted = v.counted;
    } in
    ground (arith, v, unbind-IsDma ptr (record d { mlo_key = 0 }) forgotten)

Step-IsDma :
    {a : Api} {lent : ℕ → ℕ} {d : Dma} {lent' : ℕ → ℕ} {t : Dma}
    → Step a lent d lent' t
    → IsDma lent d
    → IsDma lent' t
unfolding dma419_device
Step-IsDma {d = d} (binds old native) v = bind-IsDma old native d v
Step-IsDma {d = d} (unbinds old) v = unbind-IsDma old d v
Step-IsDma {a} {d = d} (performs old op) v = Kept-IsDma (perform-Kept a old op d) v
Step-IsDma {d = d} (sets_up old base size iommu coherent) v =
    arch_setup-IsDma old base size iommu coherent d v
Step-IsDma {d = d} (kfrees ptr) v = hnd_kfree-IsDma ptr d v
Step-IsDma {d = d} (gets old) v = record {
  registry = v.registry;
  counted = λ n hn. ground (arith, v.counted n hn);
}
Step-IsDma {d = d} (puts dev nonnull held) v = record {
  registry = v.registry;
  counted = λ n hn. ground (arith, v.counted n hn, held, nonnull);
}

-- Every call of the native API so far passed the checks of the shim.
abbrev pub AreChecked : Api → Dma → Type 0
AreChecked a d = All (IsChecked a) d.calls

Issued-AreChecked :
    (a : Api) {dev : ℕ} {before after : List Native}
    → Issued a dev before after
    → All (IsChecked a) before
    → All (IsChecked a) after
Issued-AreChecked a (inl same) v = subst (All (IsChecked a)) (sym same) v
Issued-AreChecked a (inr (c, log, checked, dev)) v =
    subst (All (IsChecked a)) (sym log) (checked, v)

calls-bind_at :
    (old native : ℕ) (d : Dma) (r : Result (Option ℕ)) → (bind_at old native d r).1.calls ≡ d.calls
calls-bind_at old native d (err e) = refl
calls-bind_at old native d (ok none) = refl
calls-bind_at old native d (ok (some i)) = refl

calls-bind : (old native : ℕ) (d : Dma) → (bind old native d).1.calls ≡ d.calls
unfolding bind
calls-bind old native d = ground (arith, calls-bind_at old native d (scan old 0 none d.slots))

calls-unbind : (old : ℕ) (d : Dma) → (unbind old d).calls ≡ d.calls
unfolding unbind
calls-unbind old d = refl

calls-arch_setup :
    (old base size : ℕ) (iommu coherent : Bool) (d : Dma)
    → (arch_setup old base size iommu coherent d).calls ≡ d.calls
unfolding arch_setup
calls-arch_setup old base size iommu coherent d = ground (arith, calls-bind old d.mlo_device d)

calls-hnd_kfree : (ptr : ℕ) (d : Dma) → (hnd_kfree ptr d).calls ≡ d.calls
unfolding hnd_kfree
calls-hnd_kfree ptr d = ground (arith, calls-unbind ptr (record d { mlo_key = 0 }))

Step-AreChecked :
    {a : Api} {lent : ℕ → ℕ} {d : Dma} {lent' : ℕ → ℕ} {t : Dma}
    → Step a lent d lent' t
    → AreChecked a d
    → AreChecked a t
unfolding dma419_device
Step-AreChecked {a} {d = d} (binds old native) v =
    subst (All (IsChecked a)) (sym (calls-bind old native d)) v
Step-AreChecked {a} {d = d} (unbinds old) v = subst (All (IsChecked a)) (sym (calls-unbind old d)) v
Step-AreChecked {a} {d = d} (performs old op) v = Issued-AreChecked a (perform-Issued a old op d) v
Step-AreChecked {a} {d = d} (sets_up old base size iommu coherent) v =
    subst (All (IsChecked a)) (sym (calls-arch_setup old base size iommu coherent d)) v
Step-AreChecked {a} {d = d} (kfrees ptr) v =
    subst (All (IsChecked a)) (sym (calls-hnd_kfree ptr d)) v
Step-AreChecked (gets old) v = v
Step-AreChecked (puts dev nonnull held) v = v

Reach-lem :
    {a : Api} {lent : ℕ → ℕ} {d : Dma} {lent' : ℕ → ℕ} {t : Dma}
    → Reach a lent d lent' t
    → IsDma lent d × AreChecked a d
    → IsDma lent' t × AreChecked a t
Reach-lem here v = v
Reach-lem (next r st) v = let (w, c) = Reach-lem r v in (Step-IsDma st w, Step-AreChecked st c)

abbrev pub no_refs : ℕ → ℕ
no_refs n = 0

-- The registry of the loaded module, whose root device is `mlo`.
abbrev pub fresh : ℕ → Dma
fresh mlo = record {
  slots = vacant ∷ vacant ∷ vacant ∷ vacant ∷ vacant ∷ vacant ∷ vacant ∷ vacant ∷ [];
  refs = no_refs;
  mlo_device = mlo;
  mlo_key = 0;
  has_ops = λ k. false;
  old_mask = λ k. 0;
  calls = [];
}

pub fresh-IsDma : (mlo : ℕ) → IsDma no_refs (fresh mlo)
fresh-IsDma mlo =
    let e : IsSlot vacant = (λ z. refl, λ z. refl) in
    record {
      registry = record {
        sized = refl;
        paired = (e, (e, (e, (e, (e, (e, (e, (e, tt))))))));
        distinct = λ k hk. ground (arith, hk);
      };
      counted = λ n hn. ground (arith, hn);
    }

-- Whatever is called, in any order, from the load of the module on: no key stands in two slots, the
-- references on every device are those of its bindings and those that callers of shim_dma_get_device
-- hold, and every call of the native API passed the checks of the shim.
pub reachable-IsDma :
    {a : Api} {lent : ℕ → ℕ} {t : Dma} (mlo : ℕ)
    → Reach a no_refs (fresh mlo) lent t
    → IsDma lent t × AreChecked a t
reachable-IsDma mlo r = Reach-lem r (fresh-IsDma mlo, tt)
