-- ===== src/Patch/Error.antt =====
-- The exceptions of src/uv_agent_runtime/patch.py, one for each place that raises, and the results of
-- code that may raise.
use uv_agent.Common.{◌≡◌, refl}
use uv_agent.Common.Text.{Text}

pub data Error : Type 0 where
  -- _parse_patch
  patch_empty no_begin no_end no_operations : Error
  not_added not_a_hunk blank_line invalid_line : (path line : Text) → Error
  empty_hunk no_change : (path : Text) → Error
  unexpected_line : (line : Text) → Error
  -- _parse_path
  no_path : (prefix : Text) → Error
  -- _apply_ops, _resolve_patch_path and _apply_hunks
  already_exists missing move_target_exists escapes hunk_not_found : (path : Text) → Error
  -- what the file system raises
  os_error : (path : Text) → Error
  -- no exception of the source: a loop of the model was given too little fuel
  out_of_fuel : Error

pub data Result {ℓ} (A : Type ℓ) : Type ℓ where
  err : Error → Result A
  ok : A → Result A

infixl 5 ◌>>=◌
-- Python goes on with the next statement unless one has raised.
abbrev pub ◌>>=◌ {ℓ κ} : {A : Type ℓ} {B : Type κ} → Result A → (A → Result B) → Result B
err raised >>= next = err raised
ok value >>= next = next value

-- What returned has gone through its first statement.
pub bind-returned {ℓ κ} :
    {A : Type ℓ} {B : Type κ} (first : Result A) (next : A → Result B) {value : B}
    → (first >>= next) ≡ ok value
    → (middle : A) × (first ≡ ok middle) × (next middle ≡ ok value)
bind-returned (err raised) next e = cc
bind-returned (ok middle) next e = (middle, refl, e)
