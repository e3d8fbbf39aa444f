-- ===== src/Lib.antt =====
-- TA-FRR: fast reroute for streams of data over a named-data network, as a patch of ndnSIM. A primary
-- path from the source to the destination has redundant sub-paths (RSPs) from later nodes back to
-- earlier ones. Every router on it holds the same resilient sub-graph (RSG). Routers test their links
-- with echos, flood what changed as link state advertisements (LSAs), put the changes into their
-- sub-graphs, compute the most reliable route again, and send the data ("capsules") on the path that
-- it prescribes.
--
-- The files, with the sources that they model (below ndnSIM-frr/ns-3/src/ndnSIM/):
--   Prelude     lists, maps, bits and integers that all parts share. An `unordered_map` is an
--               association list, whose order is the order of iteration.
--   Double      the C++ doubles, as a parameter: a type with its operations and no laws.
--   MaxQueue    the interface of FibonacciHeap (model/lltc/lltc-fibonacci-heap.hpp) that the searches
--               use: its operations, which may be stuck, and laws on what they give when they are not.
--   Heap        model/lltc/lltc-fibonacci-heap.cpp: the nodes in a store, insert, cut, cascadingCut,
--               updateKey, increaseKey and makeChild; Heap/RemoveMax has removeMax and degreewiseMerge.
--               An operation is stuck where it would read a null pointer or a degree beyond the table.
--               Heap/Queue gives this heap as a MaxQueue.
--   Graph       model/lltc/lltc-graph.cpp: addLinkDual, addVirtLinkDual, removeLinkDual, the look-ups
--               and the getters of delays and ratios; Graph/Virtual has addVirtNode, removeVirtNode and
--               getMinLinkRelia.
--   Routes      model/lltc/lltc-resilient-routes-generation-for-reroute.cpp: the conversions of paths;
--               Routes/GenPath has genPath, Routes/Vectors genRedundantSubPaths and
--               genResilientRoutesVectors, Routes/Construct constructResilientRoutes and the accessors
--               of ResilientRoutes. The key functions of lltc-fibonacci-heap-key-funcs.cpp stand with
--               the searches that use them.
--   Rsg         model/lltc/lltc-resilient-routes-subgraph.cpp: Rsg/LinkId has rsgGetLinkID and
--               rsgSearchVirLink, Rsg/Build genLltcRrSubgraph, Rsg/Status rsgUpdateLinkStatus, and
--               Rsg/Preferred rsgComputePreferredPathID, with one fibo node of the search for one
--               element of the heap.
--   Lltc        NFD/daemon/fw/lltc-fs.hpp and lltc-strategy.hpp: the state of the strategy at a router,
--               passed explicitly, and what it has sent and scheduled.
--   Lltc/Start  NFD/daemon/fw/lltc-strategy.cpp: the constructor, isPPNode and isRSPNode.
--   Lltc/Manager
--               NFD/daemon/fw/lltc-fs.cpp: LltcFsManager, with the collections that its maps share in
--               a store.
--   Lltc/LinkTest, Lltc/Lsa, Lltc/Failover
--               NFD/daemon/fw/lltc-strategy-forwarding-sublayer-path-control.cpp: the echos of a link
--               test and what they say of the faces; the LSAs; updatePreferredPathWithLSA. The
--               random numbers are a function from how many were drawn, the time is an argument.
--   Lltc/Forward
--               lltc-strategy-forwarding-sublayer-packet-forwarding.cpp and
--               lltc-strategy-service-sublayer-forwarding.cpp in NFD/daemon/fw: what is sent for
--               interests and data.
--   Messages    NFD/daemon/fw/lltc-messages-helper.cpp: the names of the messages, built and read, as
--               lists of components.
--   DataIdQueue NFD/daemon/fw/lltc-common.cpp: LltcDataIdQueue.
--   Pdc         apps/lltc-pdc.cpp: LltcResequenceQueue, which puts the packets of a PMU back in order.
--   R2t         NFD/daemon/fw/r2t-strategy.cpp, another strategy that TA-FRR is compared with: its
--               acknowledgements, timers and retransmissions as a run of events.
--   Sdatp       NFD/daemon/fw/sdatp-strategy.cpp, the strategy that TA-FRR is compared with: its lists of
--               sent and of requested data IDs, and its timers as a map from event to arguments.
--   Tests       runs of the model, and the theorems at concrete inputs.
--
-- The parts meet as in the source: Lltc/Lsa calls Lltc/Failover with the link states of a router or of
-- an LSA, and that calls Rsg/Status and Rsg/Preferred on each sub-graph of the router; Lltc/Forward
-- reads the preferred paths that result. Routes/Construct makes the routes that Rsg/Build turns into a
-- sub-graph.
--
-- Fuel: the search for the preferred path takes a round for each node that is in the heap, and has one
-- unit of fuel for each node of the sub-graph; the walk back from the destination has one unit for
-- each node and two more. The search of genPath takes a round for each node, the virtual one included,
-- and the walks along its previous nodes one unit for each node. That fuel is shown to
-- be enough: the searches return unless an operation of their heap is stuck, which is not ruled out in
-- general, only for updateKey in Heap/Increase. genResilientRoutesVectors has one unit for each node. cascadingCut has one unit
-- for each node ever made and one more, which is shown to be enough; the walk along the roots of the
-- heap has as many, and the merges of a root one for each degree and one more. The other loops run over lists.
--
-- Machine integers: IDs of links are written with their shift and mask, and the theorems on them ask
-- for node IDs below 2^31; counters of 32 bits wrap around.
--
-- A result of `none` stands for undefined behaviour too: a null pointer that is read, a look-up out of
-- range, and the erasing of a link that a node does not list.
--
-- Not modelled: the routing helper (helper/lltc/lltc-routing-helper.cpp), the interests of SDATP,
-- parseDataUri of the PDC, and the count of capsules by second in doActiveLinkConnectivityCheck. Logs, loaders of files and the
-- copies of NFD, ndn-cxx and ns-3 are left out: they are input, output or other projects' code.

pub mod Prelude
pub mod Double
pub mod MaxQueue
pub mod Heap
pub mod Graph
pub mod Rsg
pub mod Lltc
pub mod DataIdQueue
pub mod Routes
pub mod Messages
pub mod Pdc
pub mod R2t
pub mod Sdatp
pub mod Tests
