-- ===== src/DataModel/Asked/Calls.antt =====
-- data_model.c, pon_stat.c: no function that the vendor module may call asks it for parameters in
-- turn.
use tr181_xpon.Base.{Option}
use tr181_xpon.World.{World}
use tr181_xpon.DataModel.Local.{Local}
