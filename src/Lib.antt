-- ===== src/Lib.antt =====
-- tr181-xpon, the plugin that offers the XPON part of the TR-181 data model. It fills the data
-- model from a vendor module, keeps over a reboot which ONUs and ANIs are enabled and over an
-- upgrade which passwords they have, and passes changes on to the vendor module.
--
-- The parts, and how they interact. data_model.c applies transactions that the vendor module asks
-- for through pon_stat.c, and those of populate_dm_startup.c, which queries the vendor module
-- through pon_ctrl.c after startup. When a parameter changes, dm_events.c saves it
-- (persistency.c, upgrade_persistency.c, file_utils.c) and tells the vendor module, at once or,
-- for an ONU, through the list of restore_to_hal.c, which waits until the ONU is complete.
-- dm_actions.c checks passwords (password.c) and reads volatile parameters; dm_info.c says which
-- objects and parameters there are. module_mgmt.c loads the vendor module, and
-- xpon_mngr_main.c starts and stops all of this.
--
-- The modules, with the files that they model (under src/, and the types under include_priv/):
--   Base        C strings as lists of byte codes without the terminating zero, strncmp, snprintf
--               with its limit, "%d" and atoi, Boolean tests, splits on computed values.
--   Amxc, Amxd  what is used of the libraries libamxc and libamxd, as records of functions; the
--               laws that some theorems take are those of IsLawful in Amxc/StringApi, of
--               AppliesActions and ActsAlone in DataModel/Existence and of AsksOnDeletion in
--               DataModel/Asked, which states what dm_actions.c says of libamxd.
--   Posix       a disk, as a text for each path, and which calls fail on it.
--   World       the state: the store of objects, their private data, the list of
--               restore_to_hal.c, the disk, s_ignore_param_reads, and the calls made to the
--               vendor module; and the surroundings E that do not change after startup.
--   DmInfo      dm_info.c (Table: OBJECT_INFO; Lookup: the functions; Paths, Instances and Depth:
--               which paths lead to which object, and how deep they are).
--   Ani, PonMode, FileUtils, Persistency, UpgradePersistency, RestoreToHal, PonCtrl, PopulateDm,
--   DmEvents, DmActions, ObjectIntfPriv, PonStat, ModuleMgmt, Main
--               the file of that name; FileUtils is file_utils.c and so on. PopulateDm is
--               populate_dm_startup.c, Main is xpon_mngr_main.c, PonStat holds pon_cfg.c too,
--               and ObjectIntfPriv holds utils_time.c. ModuleMgmt/Register holds the tables of
--               functions that the vendor module may call. In PopulateDm, Shape, Children, Below
--               and Drains are about the tasks that a task leads to.
--   Password    passwd_check_password of password.c; passwd_set_password stands in DmEvents and
--               passwd_restore_password in DataModel/Change, with what they call.
--   DataModel   data_model.c: Reads, Args (the arguments; Target: what they name), Transactions,
--               Change, Add, Remove, Reset; with onu_priv.c in Change. Change/Applied says what
--               a change may set, Existence is about which instances exist (Refinement: as a set
--               of indexes), Local about what a call of the vendor module leaves alone, and Asked
--               about the read handlers that libamxd calls during a transaction.
--   Settings    what persistency.c and upgrade_persistency.c keep, as a map.
--   System      the running plugin: a data type of everything that can happen to it, and what each
--               event does to its variables. Frame is about what an event leaves alone, Invariant
--               and Started about what always holds, Saved and Restart about what outlives a
--               restart, Waiting and Served about restore_to_hal.c over a whole run, Drained about
--               populate_dm_startup.c, Stopped about what follows a stop.
--   Tests       the theorems at concrete inputs, with stand-ins for the libraries.
-- A function keeps its name, without a leading underscore. A function that fails returns none or
-- false, with the state that it leaves; what is only logged is left out.
--
-- Bounds. Numbers are natural numbers; a uint8_t or a uint32_t that is counted up keeps its
-- wrap-around, and atoi and the uptime theirs. Every buffer is cut where snprintf cuts it. No
-- function needs fuel but the conversion to decimal digits, which has ten steps, enough for the
-- digits of a uint32_t. atoi is that of a text whose number fits a long. MAX_NR_OF_ONUS is an
-- argument.
--
-- Events. Every entry point of the C code but the reads that change nothing (lastchange_on_read,
-- check_password, pon_cfg_get_param_value) is a constructor of System.Event; a list of events is an
-- interleaving. A timer calls its function only while it is started.
--
-- Not modelled: what the libraries and the vendor module do, which are parameters (so an event
-- that libamxd raises during a transaction is a separate step, the vendor module calls back
-- only between two steps, and what read handlers ask it for during a transaction stands in the
-- store of objects and not among the calls); that the pointers to the data model and to the
-- folders are NULL after a stop, so that a handler that is still called then finds more than it
-- does in C; logging; the passing of time, which shows as the firing of a timer; freeing
-- memory, but for the private data of an object; setting the fields of a structure to zero
-- before they are set, the names of task types for the log, and functions that only pass their
-- arguments on. The other lines of the repository are comments, prototypes, traces and
-- licences.
pub mod Base
pub mod Amxc
pub mod DmInfo
pub mod Amxd
pub mod Ani
pub mod PonMode
pub mod Posix
pub mod FileUtils
pub mod Persistency
pub mod RestoreToHal
pub mod World
pub mod PonCtrl
pub mod PopulateDm
pub mod DmEvents
pub mod Main
pub mod PonStat
pub mod ModuleMgmt
pub mod ObjectIntfPriv
pub mod DmActions
pub mod DataModel
pub mod UpgradePersistency
pub mod Password
pub mod Settings
pub mod System
mod Tests
