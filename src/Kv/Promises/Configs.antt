-- ===== src/Kv/Promises/Configs.antt =====
-- What `KVPoolConfig.__post_init__` accepts, and what it refuses.
use autotree.Base.{
  ℕ, Bool, true, false, leb, if◌then◌else◌, ◌<◌, ◌≡◌, ◌≢◌, ◌↔◌, refl, ap, sym, arith, Option, none,
  some, pos, negsuc, some-injective, subst,
}
use autotree.Kv.Errors.{Error, Result, ok, err, value_error, ok-injective}
use autotree.Kv.Config.{
  Value, integer, boolean, other, Dtype, float32, float16, bfloat16, unsupported, PoolConfig,
  RawConfig, post_init, positive_int, supported, valid_device, ◌>>=◌,
}

-- the value is the int n, no bool, and n is above zero
abbrev pub Counts : Value → ℕ → Type 0
Counts v n = (v ≡ integer (pos n)) × (0 < n)

-- The values that a caller passes are those of the configuration, its five counts are above zero,
-- and its dtype is one of the three.
pub record Configures (raw : RawConfig) (c : PoolConfig) : Type 0 where
  pub layers : Counts raw.num_layers c.num_layers
  pub heads : Counts raw.num_kv_heads c.num_kv_heads
  pub dim : Counts raw.head_dim c.head_dim
  pub pages : Counts raw.capacity c.capacity
  pub slots : Counts raw.page_size c.page_size
  pub dtype : (raw.dtype ≡ c.dtype) × (c.dtype ≢ unsupported)
  pub device : raw.device ≡ some c.device

abbrev Refuses : {A : Type 0} → Result A → Type 0
Refuses m = (e : Error) → m ≡ err e → e ≡ value_error

parts :
    {A B : Type 0} (m : Result A) (f : A → Result B) (b : B)
    → (m >>= f) ≡ ok b
    → (a : A) × ((m ≡ ok a) × (f a ≡ ok b))
parts (ok a) f b e = (a, (refl, e))
parts (err x) f b e = cc

error_or : {A : Type 0} → Error → Result A → Error
error_or e (ok a) = e
error_or e (err x) = x

err-injective : {A : Type 0} (x y : Error) → ◌≡◌ {A = Result A} (err x) (err y) → x ≡ y
unfolding error_or
err-injective x y e = ap (error_or x) e

bind-Refuses :
    {A B : Type 0} (m : Result A) (f : A → Result B)
    → Refuses m
    → ((a : A) → Refuses (f a))
    → Refuses (m >>= f)
bind-Refuses (ok a) f h k = k a
bind-Refuses (err x) f h k = λ e q. h e (ap (λ y. err y) (err-injective x e q))

tested :
    (test : Bool) (m n : ℕ)
    → (if test then err value_error else ok m) ≡ ok n
    → (test ≡ false) × (m ≡ n)
tested true m n e = cc
tested false m n e = (refl, ok-injective e)

tested-Refuses : (test : Bool) (m : ℕ) → Refuses (if test then err value_error else ok m)
tested-Refuses true m e h = sym (err-injective value_error e h)
tested-Refuses false m e h = cc

counted : (v : Value) (n : ℕ) → positive_int v ≡ ok n → Counts v n
unfolding positive_int
counted (integer (pos m)) n e =
    let (above, same) = tested (leb m 0) m n e in
    (ap (λ k. integer (pos k)) same, ground (arith, same, above))
counted (integer (negsuc m)) n e = cc
counted (boolean b) n e = cc
counted other n e = cc

positive_int-counted : (v : Value) (n : ℕ) → Counts v n → positive_int v ≡ ok n
unfolding positive_int
positive_int-counted v n (e, h) =
    let above : leb n 0 ≡ false = ground (arith, h) in rw e (rw above refl)

positive_int-Refuses : (v : Value) → Refuses (positive_int v)
unfolding positive_int
positive_int-Refuses (integer (pos m)) e h = tested-Refuses (leb m 0) m e h
positive_int-Refuses (integer (negsuc n)) e h = sym (err-injective value_error e h)
positive_int-Refuses (boolean b) e h = sym (err-injective value_error e h)
positive_int-Refuses other e h = sym (err-injective value_error e h)

supported_iff : (d c : Dtype) → (supported d ≡ ok c) ↔ ((d ≡ c) × (c ≢ unsupported))
unfolding supported
supported_iff float32 c = (λ e. (ok-injective e, λ q. absurd (cc)), λ (e, h). ap (λ d. ok d) e)
supported_iff float16 c = (λ e. (ok-injective e, λ q. absurd (cc)), λ (e, h). ap (λ d. ok d) e)
supported_iff bfloat16 c = (λ e. (ok-injective e, λ q. absurd (cc)), λ (e, h). ap (λ d. ok d) e)
supported_iff unsupported c = (λ e. cc, λ (e, h). absurd (h (sym e)))

supported-Refuses : (d : Dtype) → Refuses (supported d)
unfolding supported
supported-Refuses float32 e h = cc
supported-Refuses float16 e h = cc
supported-Refuses bfloat16 e h = cc
supported-Refuses unsupported e h = sym (err-injective value_error e h)

valid_device_iff : (o : Option ℕ) (n : ℕ) → (valid_device o ≡ ok n) ↔ (o ≡ some n)
unfolding valid_device
valid_device_iff none n = (λ e. cc, λ e. cc)
valid_device_iff (some d) n =
    (λ e. ap some (ok-injective e), λ e. ap (λ k. ok k) (some-injective e))

valid_device-Refuses : (o : Option ℕ) → Refuses (valid_device o)
unfolding valid_device
valid_device-Refuses none e h = sym (err-injective value_error e h)
valid_device-Refuses (some d) e h = cc

post_init_sound : (raw : RawConfig) (c : PoolConfig) → post_init raw ≡ ok c → Configures raw c
unfolding post_init
post_init_sound raw c e =
    let (layers, (a, e1)) = parts (positive_int raw.num_layers) _ c e in
    let (heads, (b, e2)) = parts (positive_int raw.num_kv_heads) _ c e1 in
    let (dim, (d, e3)) = parts (positive_int raw.head_dim) _ c e2 in
    let (capacity, (f, e4)) = parts (positive_int raw.capacity) _ c e3 in
    let (size, (g, e5)) = parts (positive_int raw.page_size) _ c e4 in
    let (dtype, (h, e6)) = parts (supported raw.dtype) _ c e5 in
    let (device, (k, e7)) = parts (valid_device raw.device) _ c e6 in
    subst (Configures raw) (ok-injective e7) (record {
      layers = counted raw.num_layers layers a;
      heads = counted raw.num_kv_heads heads b;
      dim = counted raw.head_dim dim d;
      pages = counted raw.capacity capacity f;
      slots = counted raw.page_size size g;
      dtype = (supported_iff raw.dtype dtype).0 h;
      device = (valid_device_iff raw.device device).0 k;
    })

post_init_complete : (raw : RawConfig) (c : PoolConfig) → Configures raw c → post_init raw ≡ ok c
unfolding post_init
post_init_complete raw c h = rw (positive_int-counted raw.num_layers c.num_layers h.layers) (
    rw (positive_int-counted raw.num_kv_heads c.num_kv_heads h.heads) (
      rw (positive_int-counted raw.head_dim c.head_dim h.dim) (
        rw (positive_int-counted raw.capacity c.capacity h.pages) (
          rw (positive_int-counted raw.page_size c.page_size h.slots) (
            rw ((supported_iff raw.dtype c.dtype).1 h.dtype)
              (rw ((valid_device_iff raw.device c.device).1 h.device) refl))))))

-- Constructing a `KVPoolConfig` succeeds, with the values that were passed, exactly when the five
-- counts are ints above zero, none of them a bool, the dtype is one of the three and torch knows the
-- device. Otherwise it raises `ValueError`.
pub post_init_lem :
    (raw : RawConfig)
    → ((c : PoolConfig) → (post_init raw ≡ ok c) ↔ Configures raw c)
      × ((e : Error) → post_init raw ≡ err e → e ≡ value_error)
unfolding post_init
post_init_lem raw = (
  λ c. (post_init_sound raw c, post_init_complete raw c),
  bind-Refuses _ _ (positive_int-Refuses raw.num_layers) λ layers.
      bind-Refuses _ _ (positive_int-Refuses raw.num_kv_heads) λ heads.
        bind-Refuses _ _ (positive_int-Refuses raw.head_dim) λ dim.
          bind-Refuses _ _ (positive_int-Refuses raw.capacity) λ capacity.
            bind-Refuses _ _ (positive_int-Refuses raw.page_size) λ size.
              bind-Refuses _ _ (supported-Refuses raw.dtype)
                λ dtype. bind-Refuses _ _ (valid_device-Refuses raw.device) λ device e h. cc,
)
