-- ===== src/Witnesses/Lived.antt =====
-- The life of the program at a batch and two requests.
use chain_data_service.Base.{ℕ, List, [], ◌∷◌}
use chain_data_service.Api.Router.{State}
use chain_data_service.Program.Life.{Happening, request, batch}
use chain_data_service.Fixtures.{payment, tables, calm_world, caches}
use chain_data_service.Witnesses.Routed.{outside, track, page}

abbrev begun : State outside
begun = calm_world tables caches

abbrev happenings : List (Happening ℕ)
happenings = request page ∷ batch 0 (payment ∷ []) ∷ request track ∷ []
