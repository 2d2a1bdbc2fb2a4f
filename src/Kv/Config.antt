-- ===== src/Kv/Config.antt =====
-- kv/config.py. The values that a caller passes are dynamic; a checked configuration is not.
use autotree.Base.{
  ℕ, Bool, true, leb, if◌then◌else◌, Option, none, some, ℤ, pos, negsuc, at_least_zero,
}
use autotree.Kv.Errors.{Result, ok, err, value_error}

-- a bool is an int to Python, and is refused
pub data Value : Type 0 where
  integer : ℤ → Value
  boolean : Bool → Value
  other : Value

pub data Dtype : Type 0 where
  float32 float16 bfloat16 unsupported : Dtype

abbrev pub itemsize : Dtype → ℕ
itemsize float32 = 4
itemsize _ = 2

pub record PoolConfig : Type 0 where
  pub num_layers : ℕ
  pub num_kv_heads : ℕ
  pub head_dim : ℕ
  pub capacity : ℕ
  pub page_size : ℕ
  pub dtype : Dtype
  pub device : ℕ

pub record RawConfig : Type 0 where
  pub num_layers : Value
  pub num_kv_heads : Value
  pub head_dim : Value
  pub capacity : Value
  pub page_size : Value
  pub dtype : Dtype
  -- what `torch.device` makes of the argument: none where it raises
  pub device : Option ℕ

abbrev default_page_size : Value
default_page_size = integer (pos 16)

infixl 5 ◌>>=◌
abbrev pub ◌>>=◌ : {A B : Type 0} → Result A → (A → Result B) → Result B
◌>>=◌ (ok a) f = f a
◌>>=◌ (err e) f = err e

-- `value <= 0`
abbrev at_most_zero : ℤ → Bool
at_most_zero (pos n) = leb n 0
at_most_zero (negsuc n) = true

unfoldable pub positive_int : Value → Result ℕ
positive_int (integer z) = if at_most_zero z then err value_error else ok (at_least_zero z)
positive_int (boolean b) = err value_error
positive_int other = err value_error

unfoldable pub supported : Dtype → Result Dtype
supported unsupported = err value_error
supported d = ok d

unfoldable pub valid_device : Option ℕ → Result ℕ
valid_device none = err value_error
valid_device (some d) = ok d

-- `KVPoolConfig.__post_init__`
unfoldable pub post_init : RawConfig → Result PoolConfig
unfolding positive_int supported valid_device
post_init raw = do
  layers ← positive_int raw.num_layers
  heads ← positive_int raw.num_kv_heads
  dim ← positive_int raw.head_dim
  capacity ← positive_int raw.capacity
  size ← positive_int raw.page_size
  dtype ← supported raw.dtype
  device ← valid_device raw.device
  ok (record {
    num_layers = layers;
    num_kv_heads = heads;
    head_dim = dim;
    capacity = capacity;
    page_size = size;
    dtype = dtype;
    device = device;
  })
