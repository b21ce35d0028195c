-- ===== src/Region/Tests.antt =====
-- Regions of places on concrete facts.
use mc_ai_bt.Common.{true, false, none, some, [], ◌∷◌, ◌≡◌, refl}
use mc_ai_bt.Common.Float.{of_ℕ}
use mc_ai_bt.Json.{str, float, dict, Fields, end, field, Runtime}
use mc_ai_bt.Json.Builtins.{Builtins}
use mc_ai_bt.Json.Number.{number}
use mc_ai_bt.Region.{Near, PlaceRegion, PlaceRegionIndex}
use mc_ai_bt.Region.Verdict.{evaluate}

abbrev runtime : Runtime
runtime = record { loads = λ raw. none; dumps = λ v. "{}"; show = λ v. "value"; quote = λ s. s }

-- Letters are in the right case already.
abbrev builtins : Builtins
builtins = record {
  rt = runtime;
  lower = λ s. s;
  upper = λ s. s;
  nfkc = λ s. s;
  casefold = λ s. s;
  to_float = λ v. number (some v);
  to_int = λ v. none;
  apart = λ a b. false;
  format = λ x. "1";
}

abbrev everywhere : Near
everywhere = λ x1 x2 y1 y2 radius. true

abbrev origin : Fields
origin = field "x" (float (of_ℕ 0)) (field "y" (float (of_ℕ 0)) end)

abbrev kitchen : PlaceRegion
kitchen = record {
  name = "kitchen";
  frame_id = "map";
  x = of_ℕ 0;
  y = of_ℕ 0;
  z = of_ℕ 0;
  occupancy_radius_m = of_ℕ 2;
}

abbrev places : PlaceRegionIndex
places = kitchen ∷ []

abbrev people : Fields
people = field "ann" (dict (field "position" (dict origin) end)) end

abbrev args : Fields
args = field "place" (str "kitchen") (field "person_id" (str "person:ann") end)

abbrev facts : Fields
facts =
    field "places" (dict (field "kitchen" (dict (field "position" (dict origin) end)) end))
      (field "people" (dict people) end)

found : (evaluate builtins everywhere facts "person_at_place" args).state ≡ "TRUE"
unfolding evaluate number
found = refl
