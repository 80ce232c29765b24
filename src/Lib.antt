-- ===== src/Lib.antt =====
-- The installer of Harvester: a terminal program that asks for a configuration (or reads it from a
-- URL), validates it, writes the network profiles and the partition layout, and installs the
-- system. This library models the parts of it that decide.
--
-- The parts, and the files that model them:
--
-- Util/Disk models pkg/util/disk.go and the conversions of pkg/util/common.go: `ParsePartitionSize`
-- is `parse_partition_size`, `parsePartitionBytes` is `parse_partition_bytes` on the code points of
-- the text. A uint64 is a number modulo 2 ^ 64, with each product and difference reduced.
--
-- Util/CmdLine models pkg/util/cmdline.go: `parse_cmd_line` is `ParseCmdLine` behind its regular
-- expression, over the tree of rancher/mapper, a parameter (`Tree`) with the law `GetsLastPut`.
-- Util/IfDetails has `parseIfDetails` there. An error stands for what is returned or, for the
-- constructor `not_a_string`, for a panic.
--
-- Config/Types, Settings, Kubelet and Interfaces model pkg/config/config.go and
-- pkg/config/constants.go; Config/Defaults (`setConfigDefaultValues`), Config/Layout (the partition
-- layouts), Config/Profiles (the NetworkManager profiles), Config/Stages (the stages of
-- `ConvertToCOS`, as data) and Config/Cos (`ConvertToCOS` and `GenerateRancherdConfig`, which write
-- the profiles too) model pkg/config/cos.go. The layout for a shared disk calls
-- `ParsePartitionSize`. The profiles have a state: a `Machine` has the files, the map `originalNetworkConfigs`, the flag of its `sync.Once` and the
-- commands that were run, and an effect takes it to a result and the machine afterwards, also if
-- it fails. What fails is a parameter (`Faults`), and so are the templates (`Env`).
--
-- Console/Disks and Console/Retry model the disk cache and `retryOnError` of pkg/console/util.go;
-- Console/Validator models pkg/console/validator.go, `validateConfig` with each check it calls. The
-- validator reads the disk cache (`refresh`), the interfaces of Config/Interfaces and the labels of
-- Config/Kubelet; what it asks of the machine is the record `Host`. Console/Webhooks models
-- pkg/console/webhooks.go: `prepare_webhooks` renders the hooks of the configuration, and
-- `handle_webhooks` handles those of an event; what a request answers is a parameter.
--
-- Console/Install models the installation of pkg/console/util.go, `doInstall` and
-- `configureInstalledNode`, from the system settings to the shutdown. Its state, a `World`, is the
-- machine of the profiles with the log of what happened: the webhooks told, the programs run, the
-- disks wiped. Console/Install/Protocol is the order of these events as a machine of phases.
--
-- Console/DiskPage models the page of the disks of pkg/console/install_panels.go: `show_disk_page`
-- and, for each panel and key, `press`. A `DiskPage` has the configuration, the disk cache, what the
-- drop-downs and inputs hold, the message and the note, the panel that has the focus, and the page
-- that the key leads to. The checks are those of Console/Validator and Util/Disk.
--
-- Console/NetworkPage models the page of the management network there (`addNetworkPanel`, with
-- `ParseMask`), and Console/NetworkPage/Moves its keys: `press_key` for each input and key, and
-- `pre_goto_next_page`, which applies the network before the page is left.
--
-- Console/VipPage models the page of the virtual IP (`addVIPPanel`), with the answers of DHCP as
-- events between the keys. Console/Dialog and Console/Dialog/Later model the other pages, a function
-- for each key, with helper.go for the password; Console/Dialog/Steps joins all the pages to one
-- relation, in which the pages of the disks and networks make their own runs. There a key waits for
-- the answer that it asks for, but a request for a virtual IP may be answered after its page is left
-- (`late_failure`), if the relation is asked to have such answers.
--
-- Console/ClusterNetwork models the page of the cluster networks in the same file, with what is typed
-- into its inputs. Console/InstallPanel models the panel that starts the installation
-- (`addInstallPanel`): `checked_config` is its last part, up to the validator, and
-- Console/InstallPanel/Start has the whole of it, which applies the networks (Console/Network, for
-- pkg/console/network.go), prepares the webhooks and calls `do_install`.
--
-- Console/Nics models the list of the NICs in pkg/console/network.go: `get_nics` is `getNICs`, with the
-- filter for iSCSI sessions.
--
-- Preflight models pkg/preflight/checks.go.
--
-- A theorem has the module of its component, in a child module named for what it proves. Tests has
-- a configuration, a machine and runs of the model on them. Prelude has the errors, lists, integers
-- and texts that the parts share.
--
-- Bounds: no function runs on fuel. The loops are recursions on their lists; `retryOnError` is a
-- recursion on its number of retries (all the calls it can make), and so is the loop of a webhook,
-- with three retries. A Go map is the list of its entries in one order of iteration.
--
-- Not modelled: the frame of the wizard, the dashboard, the drawing of the widgets, the
-- polls of a running node, the reading of YAML and of /proc/cmdline, and the scripts, which
-- are input and output for the most part; and the vendored libraries, of which what is called is a
-- parameter. Logging, pauses and what is printed are left out.
mod Prelude
pub mod Util
pub mod Config
pub mod Console
pub mod Preflight
mod Tests
