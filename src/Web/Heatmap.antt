-- ===== src/Web/Heatmap.antt =====
-- apps/web/src/lib/heatmap.ts: the tint of a ROAS cell.
use ad_link.Common.{Option, none, some, String}
use ad_link.Core.Metrics.{Ratio}
use ad_link.Core.Format.{RoasBand, loss, thin, healthy, winner, roas_band}

abbrev pub class_of : Option RoasBand → String
class_of none = "text-muted-foreground"
class_of (some loss) = "bg-[#FEE2E2] text-[#7f1d1d] dark:bg-red-500/15 dark:text-red-300"
class_of (some thin) = "bg-[#FEF3C7] text-[#78350f] dark:bg-amber-500/15 dark:text-amber-300"
class_of (some healthy) = "bg-[#DCFCE7] text-[#14532d] dark:bg-emerald-500/15 dark:text-emerald-300"
class_of (some winner) = "bg-[#BBF7D0] text-[#14532d] dark:bg-emerald-500/20 dark:text-emerald-300"

abbrev pub roas_cell_class : Option Ratio → String
roas_cell_class roas = class_of (roas_band roas)
