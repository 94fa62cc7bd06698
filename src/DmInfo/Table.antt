-- ===== src/DmInfo/Table.antt =====
-- The types of dm_info.h and the array OBJECT_INFO of dm_info.c.
use tr181_xpon.Base.{ℕ, Bool, true, false, Option, none, some, List, [], ◌∷◌, Text, codes}
use tr181_xpon.DmInfo.Params.{
  ParamInfo, name_param, onu_params, software_image_params, ethernet_uni_params, ani_params,
  gem_port_params, transceiver_params, onu_activation_params, authentication_params,
  performance_thresholds_params, tc_alarms_params,
}

pub data ObjectId : Type 0 where
  onu software_image ethernet_uni ani gem_port transceiver : ObjectId
  ani_tc_onu_activation ani_tc_authentication : ObjectId
  ani_tc_performance_thresholds ani_tc_alarms : ObjectId
  unknown : ObjectId  -- obj_id_unknown = obj_id_nbr

pub record ObjectInfo : Type 0 where
  pub id : ObjectId
  pub name : Text
  pub generic_path : Text
  pub key_name : Option Text
  pub key_max_value : ℕ
  pub singletons : Option Text
  pub templates : Option Text
  pub params : List ParamInfo
  pub has_rw_enable : Bool

-- The value of the enumerator.
abbrev pub object_id_value : ObjectId → ℕ
object_id_value onu = 0
object_id_value software_image = 1
object_id_value ethernet_uni = 2
object_id_value ani = 3
object_id_value gem_port = 4
object_id_value transceiver = 5
object_id_value ani_tc_onu_activation = 6
object_id_value ani_tc_authentication = 7
object_id_value ani_tc_performance_thresholds = 8
object_id_value ani_tc_alarms = 9
object_id_value unknown = 10

abbrev pub object_id_nbr : ℕ
object_id_nbr = 10

-- A field that an initialiser leaves out is 0.
unfoldable pub object_info : List ObjectInfo
object_info =
    record {
      id = onu;
      name = codes "ONU";
      generic_path = codes "XPON.ONU";
      key_name = some name_param;
      key_max_value = 0;
      singletons = none;
      templates = some (codes "SoftwareImage,EthernetUNI,ANI");
      params = onu_params;
      has_rw_enable = true;
    }
    ∷ record {
      id = software_image;
      name = codes "SoftwareImage";
      generic_path = codes "XPON.ONU.x.SoftwareImage";
      key_name = some (codes "ID");
      key_max_value = 1;
      singletons = none;
      templates = none;
      params = software_image_params;
      has_rw_enable = false;
    }
    ∷ record {
      id = ethernet_uni;
      name = codes "EthernetUNI";
      generic_path = codes "XPON.ONU.x.EthernetUNI";
      key_name = some name_param;
      key_max_value = 0;
      singletons = none;
      templates = none;
      params = ethernet_uni_params;
      has_rw_enable = false;
    }
    ∷ record {
      id = ani;
      name = codes "ANI";
      generic_path = codes "XPON.ONU.x.ANI";
      key_name = some name_param;
      key_max_value = 0;
      singletons = some (codes "TC.ONUActivation,TC.PerformanceThresholds,TC.Alarms");
      templates = some (codes "TC.GEM.Port,Transceiver");
      params = ani_params;
      has_rw_enable = true;
    }
    ∷ record {
      id = gem_port;
      name = codes "GEMPort";
      generic_path = codes "XPON.ONU.x.ANI.x.TC.GEM.Port";
      key_name = some (codes "PortID");
      key_max_value = 65534;
      singletons = none;
      templates = none;
      params = gem_port_params;
      has_rw_enable = false;
    }
    ∷ record {
      id = transceiver;
      name = codes "Transceiver";
      generic_path = codes "XPON.ONU.x.ANI.x.Transceiver";
      key_name = some (codes "ID");
      key_max_value = 1;
      singletons = none;
      templates = none;
      params = transceiver_params;
      has_rw_enable = false;
    }
    ∷ record {
      id = ani_tc_onu_activation;
      name = codes "ONUActivation";
      generic_path = codes "XPON.ONU.x.ANI.x.TC.ONUActivation";
      key_name = none;
      key_max_value = 0;
      singletons = none;
      templates = none;
      params = onu_activation_params;
      has_rw_enable = false;
    }
    ∷ record {
      id = ani_tc_authentication;
      name = codes "Authentication";
      generic_path = codes "XPON.ONU.x.ANI.x.TC.Authentication";
      key_name = none;
      key_max_value = 0;
      singletons = none;
      templates = none;
      params = authentication_params;
      has_rw_enable = false;
    }
    ∷ record {
      id = ani_tc_performance_thresholds;
      name = codes "PerformanceThresholds";
      generic_path = codes "XPON.ONU.x.ANI.x.TC.PerformanceThresholds";
      key_name = none;
      key_max_value = 0;
      singletons = none;
      templates = none;
      params = performance_thresholds_params;
      has_rw_enable = false;
    }
    ∷ record {
      id = ani_tc_alarms;
      name = codes "TC.Alarms";
      generic_path = codes "XPON.ONU.x.ANI.x.TC.Alarms";
      key_name = none;
      key_max_value = 0;
      singletons = none;
      templates = none;
      params = tc_alarms_params;
      has_rw_enable = false;
    }
    ∷ []
