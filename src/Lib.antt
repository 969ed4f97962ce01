-- ===== src/Lib.antt =====
-- A verification library for the Hypatia simulator with multicast: packet routing over a network
-- of point-to-point links, statistics of its links, applications and the input files of an
-- experiment (its module basic-sim), and network devices and routing of satellites (its module
-- satellite-network). Paths without simulator in front are below simulator/contrib/basic-sim.
--
-- The parts of the program, and the files here that model them:
-- - Base: shared helpers. Results are C++ exceptions as values (std::invalid_argument,
--   std::runtime_error, std::out_of_range, a failed assertion, undefined behaviour). Int has the
--   integers, Maps the std::map and std::set of the program as ascending or keyed lists.
-- - Tracking: model/core/log-update-helper.cc (LogUpdate: Update is `update`, Finalize is
--   `finalize`), model/core/ptop-link-queue-tracker.cc (QueueTracker), which keeps two such helpers,
--   and model/core/ptop-link-utilization-tracker.cc (Utilization: TrackUtilization is
--   `track_utilization`, its while loop `close_intervals`).
-- - Routing.Ecmp: helper/core/arbiter-ecmp-helper.cc. CalculateGlobalState is
--   `calculate_global_state`: a distance matrix by Floyd-Warshall, and from it the candidate next
--   hops of each node for each destination.
-- - Routing.Arbiter: model/core/arbiter.cc, arbiter-ptop.cc, arbiter-ecmp.cc and
--   arbiter-multicast.cc, which choose the interfaces of a packet from the candidates (unicast) or
--   from the installed routes (multicast). BaseDecide is `base_decide`.
-- - Routing.Multicast: helper/core/arbiter-multicast-helper.cc. CalGlobalMulticastState is
--   `cal_global_multicast_state`: it follows the first candidates from the source of each request to
--   its destinations and installs the routes in the arbiters. Setup is the constructor, which also
--   takes the arbiters' tables of neighbours, and RouteFile is
--   ReadGlobalMulticastState, which reads routes from a file instead.
-- - Routing.Ipv4: model/core/ipv4-arbiter-routing.cc, RouteInput and RouteOutput on top of the
--   arbiters; Journey follows a packet through the nodes that Routing.Multicast has set up.
-- - ExpUtil: model/core/exp-util.cc, the parsing of text, numbers, sets, lists, maps and
--   configuration files. Function names are those of the source.
-- - TopologyPtop: model/core/topology-ptop.cc, ReadTopologyConfig, ParseTopologyGraph and the
--   properties of links (Links), and its default selectors of queues and traffic control disciplines
--   (Selectors).
-- - Satellite: simulator/contrib/satellite-network, below which its paths are. Gsl is
--   model/gsl-net-device.cc and Gsl.Channel model/gsl-channel.cc. A device keeps in its state what it
--   does to the simulator, the layer above and the traces; where GSLNetDevice::TransmitStart calls its
--   channel, `transmit_start` calls the channel's `channel_transmit_start` through the device's Port
--   and logs the packet with the arrival that the channel has scheduled, or aborts as the channel
--   does. Server is the abstract specification of such a device, Gsl.Runs the runs of one,
--   in which its operations return; Gsl.Sends says when they do.
--   Laser is the utilization tracking of model/point-to-point-laser-net-device.cc; Headers is the
--   header that both devices add.
--   Forward is helper/arbiter-single-forward-helper.cc, model/arbiter-single-forward.cc and
--   model/arbiter-satnet.cc, the entries of which are read from a file at intervals.
-- - Apps.UdpBurst: model/apps/udp-burst-application.cc. Registration, Running and Events go through
--   its operations, Runs through the orders in which they may come.
-- - Schedule: helper/apps/tcp-flow-schedule-reader.cc (TcpFlow),
--   udp-burst-schedule-reader.cc (UdpBurst) and multicast-udp-schedule-reader.cc (MulticastUdp),
--   readers of CSV files on top of ExpUtil; Requests connects the last to Routing.Multicast.
--
-- Numbers: node ids, interface indices, distances, durations and simulation times are not negative
-- where the code uses them and are natural numbers; the log helper has the sentinel -1 and works on
-- integers. A distance is at most 100000000 and a sum of two fits int32_t. A group address is
-- computed modulo 2^32. Machine overflow of times (2^63 ns) is not modelled. A std::set<int64_t> of
-- ids is an ascending list of natural numbers, since what fills one rejects negative numbers. A
-- double of the input is an element of Doubles: a rate may be NaN, and the conversion of one to an
-- integer is partial.
--
-- Fuel: `close_intervals` gets one more round than the present time in ns, and each round moves an
-- interval of at least 1 ns on; `walk` gets 100000000 rounds, and each hop comes one nearer to the
-- destination, whose distance is smaller; `split_loop` gets one more round than the text has
-- characters, and each round takes a delimiter of at least one; `end_intervals` is as
-- `close_intervals`. Running out is the error out_of_fuel, which is no C++ exception. `run_updates`
-- goes through a given number of updates of the forwarding state.
--
-- Arguments in place of code outside the repository: ns-3's packets and queues, the time between two
-- packets of a burst, the hash of a packet's five-tuple, the test for a multicast address, the
-- addresses, interfaces and devices of nodes and the groups that they receive (ns-3), the delay
-- between two devices at a time (a distance in doubles), std::stod
-- (Doubles), and the lines of a file, `none` if it cannot be read.
--
-- Not modelled: the check of CalGlobalMulticastState that multicast_route_filename is configured,
-- devices that are attached to a channel while it runs, ns-3 objects and their installation, sockets and the other applications, output
-- files, the rest of the satellite modules and the SGP4 library.
pub mod Base
pub mod Tracking
pub mod Routing
pub mod ExpUtil
pub mod Schedule
pub mod TopologyPtop
pub mod Satellite
pub mod Apps
