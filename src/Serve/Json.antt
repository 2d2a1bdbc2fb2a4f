-- ===== src/Serve/Json.antt =====
-- The values that `json.loads` yields, as far as the server looks into them. Objects keep the last
-- value of a repeated key, so their keys are distinct.
use autotree.Base.{Bool, Option, none, some, Text, Table, same_text, if◌then◌else◌, [], ◌∷◌, ℤ}

mutual
  pub data Json : Type 0 where
    null real : Json
    boolean : Bool → Json
    integer : ℤ → Json
    string : Text → Json
    array : Items → Json
    object : Members → Json

  pub data Items : Type 0 where
    no_items : Items
    item : Json → Items → Items

  pub data Members : Type 0 where
    no_members : Members
    member : Text → Json → Members → Members

-- `value.get(key)`
abbrev pub member_of : Text → Members → Option Json
member_of key no_members = none
member_of key (member k value rest) = if same_text k key then some value else member_of key rest

-- a `str`
abbrev pub as_string : Option Json → Option Text
as_string (some (string s)) = some s
as_string _ = none

-- an `int` that is not a `bool`
abbrev pub as_integer : Option Json → Option ℤ
as_integer (some (integer n)) = some n
as_integer _ = none

-- a `dict`
abbrev pub as_object : Option Json → Option Members
as_object (some (object m)) = some m
as_object _ = none

abbrev pub entries : Members → Table Json
entries no_members = []
entries (member k value rest) = (k, value) ∷ entries rest
