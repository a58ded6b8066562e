-- ===== src/Tests/MachineRuns.antt =====
-- The registry and its type-ahead search on concrete texts.
use starfighter_workflow.Common.{pos, ◌≡◌}
use starfighter_workflow.Sql.Like.{like}
use starfighter_workflow.Machines.Escape.{pattern_of}
use starfighter_workflow.Db.Exec.{outcome}
use starfighter_workflow.Common.{trim_space, List, ok}
use starfighter_workflow.Machines.{Machine, search_machines}
use starfighter_workflow.Machines.Found.{IsFound, search_machines-IsFound}
use starfighter_workflow.Tests.Shop.{day, day-IsHealthy, shop}
use starfighter_workflow.Machines.Search.{holds, like-escape_like}

like-escape_like_example : like (pattern_of "100%") "Ms. 1000" ≡ holds "100%" "Ms. 1000"
like-escape_like_example = like-escape_like "100%" "Ms. 1000"

-- a limit that is out of range
search_machines-IsFound_example :
    (ms : List Machine) × (outcome (search_machines "MAN" (pos 1000)) day ≡ (ok ms, shop))
    × IsFound (trim_space "MAN") (pos 1000) shop.machines ms
search_machines-IsFound_example = search_machines-IsFound "MAN" (pos 1000) day day-IsHealthy
