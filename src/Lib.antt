-- ===== src/Lib.antt =====
-- Verification of Minority Viewport, a server that unifies what several depth sensors see.
--
-- The program. Client machines register over HTTP and announce their sensors; each sensor owns a
-- scene, the people that it sees at the moment. The viewport orders the scenes by the time at which
-- each first saw somebody and links neighbours. A connection feeds the bytes it receives to the
-- request parser; a complete request goes to the request handler, which checks the path, calls the
-- viewport and answers with a reply. The sensors' data arrives in datagrams, and goes to the viewport.
--
-- The modules follow the folders of the repository.
--   Base: shared names; faults and the monad of operations that may fail; std::map as a sorted list
--     (OrderedMap); decimal numerals; comparisons of texts; lists without repetition; trees with their
--     text (Document), which the texts that the program writes are compared with.
--   Data.Json, Data.Matrix: the interfaces for the JSON reader and for OpenCV's matrices; Matrix.Sizes
--     has what OpenCV documents of operands that fit in type and size.
--   Data.Escape: the loop that escapes backslashes, shared by three files; Pass has it as one pass,
--     Reading what a reader of JSON strings makes of it. Data.Commas: the loops that write lists.
--   Data.Skeleton: Data/Skeleton.cpp and Data/Joint.cpp, the data and the accessors; Reading has the
--     constructor from JSON, Writing ToJSON, Points the matrix of the points and back.
--   Data.Scene: Data/Scene.cpp, one function per method; Capacity is about its map of skeletons,
--     Refreshing has the loop of the refresh thread, Writing ToJSON, Placing the texts of the matrices.
--   Data.Sensor: Data/Sensor.cpp, and the store of scenes that the pointers of the program share.
--   Data.Client: Data/Client.cpp, the sensors of a client; Writing has ToJSON.
--   Data.ClientsList: Data/ClientsList.cpp; Ids, Draws and Removal are about the identifiers,
--     Registry is the partial map that the list stands for.
--   Data.Queues: Data/Job.cpp, Data/JobsQueue.cpp, Data/SkeletonsQueue.cpp; Order is about the order.
--   Algorithms.Viewport: Algorithms/MinorityViewportAlgo.cpp, registration and CalibrateSceneOrder;
--     Order has the order as lists, Passes the loops over the store, Calibration the whole call,
--     Chain the numbers and the links that the scenes get;
--     Sensors has LoadSkeleton and GetLocalSceneBySensorId, Listing GetClientListing, SensorData
--     ProcessSensorData, Merging MergeScenes and GetGlobalScene (Matching, Shown and Pair are about the
--     people whom two scenes share, Sizes, Fitting, Returning and Chained about merges that return), Alignment CalibrateScenes; Ownership is about the scenes that sensors
--     own and the links to them (Departure is the removal of a client), Soundness about what all operations preserve, Registration about what they
--     do to the registry of the clients.
--   Networks.Request, Networks.RequestParser: Networks/RequestParser.cpp, request_parser::consume by
--     clauses on the state; children on chunks, printing, the round trip and soundness.
--   Networks.Reply: Networks/Reply.cpp; Framing is about the bytes that a receiver gets.
--   Networks.MimeTypes: Networks/MimeTypes.cpp.
--   Networks.RequestHandler: Networks/RequestHandler.cpp; UrlDecode, Paths (the checks of the path,
--     the extension, request_header_val), Numbers (stoi, from its documentation), Endpoints (one
--     function for each endpoint), Handling (handle_request); Handling.Answering is about its replies,
--     Keeping and Soundness about what it preserves, Registration and Effects about the registry, Ordering and Showing about the requests
--     that order the scenes and show the unified one.
--   Networks.Connection: Networks/Connection.cpp, its handlers, with the request handler as an
--     argument; Reading is about the reads that complete one after the other, Serving about a
--     connection whose handler is handle_request.
--   Networks.IoServicePool: Networks/IOServicePool.cpp, the choice of a service; Turns is about it.
--   Networks.Server: Networks/Server.cpp, the acceptance of connections; Accepting is about the services
--     that they run on.
--   Networks.NtpClient: Networks/NTPClient.cpp, the time in an answer; Seconds is about it.
--   Networks.UdpServer: Networks/UdpServer.cpp, the loop that receives the data of the sensors.
--   Misc.Timer: Misc/Timer.cpp.
--   Core: MinorityViewport.cpp, the state at the start; the steps that requests, datagrams and refresh
--     threads take from there; Running is about the states reached, by Algorithms.Viewport.Soundness
--     and Networks.RequestHandler.Handling.Soundness; Refinement says what each
--     step means for the registry.
--   Tests: runs at concrete inputs, and the results at inputs that meet their hypotheses.
--
-- Conventions. A byte is a number below 256 and a text is a list of bytes. A C++ operation that can
-- follow a bad pointer, throw, or be undefined returns a Result; the state after a fault is not
-- modelled. Pointers to scenes are addresses in a store, and the answers of `new` are a parameter;
-- clients and sensors have one owner and are values. `double` and OpenCV's `Mat` are type parameters,
-- and what the program does with them are fields of the interfaces Matrices, Readers and World. The writing
-- of log files, which nothing reads, is left out. The file system is an interface of two operations: a file is
-- written and closed at once, at the end of the block that writes it.
-- The time stamps of skeletons and the times of the refresh threads are patterns of 32-bit longs.
-- The version numbers of a request are 32-bit patterns (signed overflow is undefined in C++; here it
-- wraps). Readings of the timer and answers of rand() are arguments. The methods run one at a time:
-- each mutex makes its critical section one step, and whole requests, datagrams and rounds of the
-- refresh threads interleave in Core; finer interleavings are not modelled.
--
-- Fuel. The loop that draws identifiers takes the number of draws as fuel, since only chance ends it.
-- The loop that escapes backslashes takes a round for each byte of the text, which is enough, as each
-- round looks further on. All other loops are structural. The counter of a loop over a JSON array is an unsigned short: an
-- array of 2^16 elements or more is a loop without end, and the model says so (no_fuel).
--
-- Not modelled: the sockets and threads of the servers (calls of the operating system; what
-- they answer is an argument), the JSON library and OpenCV (libraries), the web console, the other log
-- files and Skeleton::ComputeCentroid (never called).
pub mod Base
pub mod Data
pub mod Algorithms
pub mod Networks
pub mod Misc
pub mod Core
mod Tests
