-- ===== src/Discovery.antt =====
-- The names of the directories under Cargo's registry sources,
-- crates/rust-mcp/src/mcp/indexing/discovery.rs. `parses` stands for the success of
-- `semver::Version::parse`. The source's `i` is one more than the position of the dash here.
pub mod Splits
pub mod Scan
use rust_mcp.Prelude.{
  ℕ, zero, suc, ◌-◌, Bool, true, false, ◌||◌, List, [], ◌∷◌, Option, none, some, ◌==◌, length, take,
  drop, any, if◌then◌else◌,
}
use rust_mcp.Text.{Text}

-- No crate name has a dot or a plus.
abbrev pub foreign : ℕ → Bool
foreign c = c == 46 || c == 43

abbrev pub dash_first : Text → Bool
dash_first [] = false
dash_first (c ∷ s) = c == 45

module _ (parses : Text → Bool) where
  abbrev pub candidate : Text → Text → Option (Text × Text) → Option (Text × Text)
  candidate name version rest =
      if any foreign name then rest else if parses version then some (name, version) else rest

  -- The positions below the number, from the last to the first.
  unfoldable pub split_below : Text → ℕ → Option (Text × Text)
  split_below dir_name zero = none
  split_below dir_name (suc i) =
      let rest = split_below dir_name i in
      if dash_first (drop i dir_name)
      then candidate (take i dir_name) (drop (suc i) dir_name) rest
      else rest

  unfoldable pub parse_registry_dir_name : Text → Option (Text × Text)
  unfolding split_below
  parse_registry_dir_name dir_name = split_below dir_name (length dir_name - 1)
