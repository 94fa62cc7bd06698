-- ===== src/DmInfo/Params.antt =====
-- The parameters of the objects: the arrays of dm_info.c that OBJECT_INFO refers to.
use tr181_xpon.Base.{List, [], ◌∷◌, Text, codes}
use tr181_xpon.Amxc.{VarId, id_bool, id_int32, id_uint32, id_cstring, id_csv_string}

pub record ParamInfo : Type 0 where
  pub name : Text
  pub var_type : VarId

abbrev pub enable_param : Text
enable_param = codes "Enable"

abbrev pub name_param : Text
name_param = codes "Name"

abbrev param : Text → VarId → ParamInfo
param n t = record { name = n; var_type = t }

abbrev pub onu_params : List ParamInfo
onu_params =
    param enable_param id_bool
    ∷ param (codes "Version") id_cstring
    ∷ param (codes "EquipmentID") id_cstring
    ∷ param (codes "UsePPTPEthernetUNIasIFtoNonOmciDomain") id_bool
    ∷ []

abbrev pub software_image_params : List ParamInfo
software_image_params =
    param (codes "Version") id_cstring
    ∷ param (codes "IsCommitted") id_bool
    ∷ param (codes "IsActive") id_bool
    ∷ param (codes "IsValid") id_bool
    ∷ []

abbrev pub ethernet_uni_params : List ParamInfo
ethernet_uni_params =
    param (codes "Enable") id_bool
    ∷ param (codes "Status") id_cstring
    ∷ param (codes "LastChange") id_uint32
    ∷ param (codes "ANIs") id_csv_string
    ∷ param (codes "InterdomainID") id_cstring
    ∷ param (codes "InterdomainName") id_cstring
    ∷ []

abbrev pub ani_params : List ParamInfo
ani_params =
    param enable_param id_bool
    ∷ param (codes "Status") id_cstring
    ∷ param (codes "LastChange") id_uint32
    ∷ param (codes "PONMode") id_cstring
    ∷ []

abbrev pub gem_port_params : List ParamInfo
gem_port_params = param (codes "Direction") id_cstring ∷ param (codes "PortType") id_cstring ∷ []

abbrev pub transceiver_params : List ParamInfo
transceiver_params =
    param (codes "Identifier") id_uint32
    ∷ param (codes "VendorName") id_cstring
    ∷ param (codes "VendorPartNumber") id_cstring
    ∷ param (codes "VendorRevision") id_cstring
    ∷ param (codes "PONMode") id_cstring
    ∷ param (codes "Connector") id_cstring
    ∷ param (codes "NominalBitRateDownstream") id_uint32
    ∷ param (codes "NominalBitRateUpstream") id_uint32
    ∷ param (codes "RxPower") id_int32
    ∷ param (codes "TxPower") id_int32
    ∷ param (codes "Voltage") id_uint32
    ∷ param (codes "Bias") id_uint32
    ∷ param (codes "Temperature") id_int32
    ∷ []

abbrev pub onu_activation_params : List ParamInfo
onu_activation_params =
    param (codes "ONUState") id_cstring
    ∷ param (codes "VendorID") id_cstring
    ∷ param (codes "SerialNumber") id_cstring
    ∷ param (codes "ONUID") id_uint32
    ∷ []

abbrev pub authentication_params : List ParamInfo
authentication_params =
    param (codes "Password") id_cstring ∷ param (codes "HexadecimalPassword") id_bool ∷ []

abbrev pub performance_thresholds_params : List ParamInfo
performance_thresholds_params =
    param (codes "SignalFail") id_uint32 ∷ param (codes "SignalDegrade") id_uint32 ∷ []

abbrev pub tc_alarms_params : List ParamInfo
tc_alarms_params =
    param (codes "LOS") id_bool
    ∷ param (codes "LOF") id_bool
    ∷ param (codes "SF") id_bool
    ∷ param (codes "SD") id_bool
    ∷ param (codes "LCDG") id_bool
    ∷ param (codes "TF") id_bool
    ∷ param (codes "SUF") id_bool
    ∷ param (codes "MEM") id_bool
    ∷ param (codes "DACT") id_bool
    ∷ param (codes "DIS") id_bool
    ∷ param (codes "MIS") id_bool
    ∷ param (codes "PEE") id_bool
    ∷ param (codes "RDI") id_bool
    ∷ param (codes "LODS") id_bool
    ∷ param (codes "ROGUE") id_bool
    ∷ []
