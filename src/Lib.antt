-- ===== src/Lib.antt =====
-- The game server of this repository: dogs run over the roads of a map, gather lost things into their
-- bags, and hand them in at offices. Clients join, steer and read the state over HTTP; a tick moves the
-- game on; a dog that stands still too long retires into a table of records.
--
-- Which file models what:
--   Double        `double`: a record of operations, with the facts of IEEE 754 that proofs rely on as
--                 the record IsIeee. Double.Milli is an instance, for tests and witnesses.
--   Json          what the code calls of boost::json, as parameters with their laws
--   Geom          src/geom.h
--   Collision     src/collision_detector.h and .cpp: TryCollectPoint, FindGatherEvents. std::sort is a
--                 parameter with the laws IsSort, which Collision.Sorting fills;
--                 Collision.Passing is the geometry that the events are held against.
--   LootGen       src/loot_generator.h and .cpp: LootGenerator::Generate
--   Model.Road    Road, IsPointOnRoad, FindStopPoint of src/model.h and src/model.cpp
--   Model.GameMap Map, Office, GetRandomPointOnRoad; an r-tree is the list of its entries
--   Model.Loot, Model.Dog, Model.Session   the classes Loot, Dog, GameSession
--   Model.World   Game, players and static counters: the state that all operations pass along
--   Model.Movement  CalculateNewDogPosition and UpdateDogsPosition, over the parameter Boost, which
--                 stands for boost::geometry; the order of an r-tree's answers is left open
--   Model.Spawn   UpdateLoot        Model.Gather  GatherLoot       Model.Retire  RemoveInactiveDogs
--   Model.Tick    Update, which runs these for each session in their order
--   Application   src/application.h and .cpp: players, MakeAction, FindPlayersInSession, joining
--   Serialization src/model_serialization.h: representations and their restoring; Serialization.Archive
--                 what SaveState and LoadState of src/model.cpp write and read, and Serialization.Files
--                 how SaveState changes the files, with its outcomes as arguments
--   Handlers      src/handlers_utils.cpp, src/api_handler.h and .cpp: UrlDecode, tokens, routing, and
--                 every handler with its effect on the state; JSON is the parameter Json
--   Loader        src/json_loader.cpp and src/extra_data.cpp: LoadGame from the content of the file on
--   Handlers.MapJson  RoadsToJson, BuildingsToJson, OfficesToJson, MapInfoToJson of src/api_handler.cpp
--   RequestHandler  src/request_handler.h and .cpp: static files and operator(), over the parameter
--                 FileSystem
--   HttpServer    src/http_server.h and .cpp: a session and the listener, as the asynchronous operations
--                 that are under way; HttpServer.Steps lets them end in any possible way,
--                 HttpServer.Liveness without an error
--   Server        all of these one after another: Server.Steps is the relation of joins, actions and
--                 ticks, Server.Sound the invariant of the state, Server.Shrink, Server.Ticking and
--                 Server.Joining its upkeep, and Server.Answers, Server.Posts and
--                 Server.Requests relate Handle and its answers to the relation
--   Main          src/main.cpp: Ticker, ParseCommandLine, and making the game ready; Main.Start follows
--                 the server from its configuration file on, Main.Ticks the time it is told
--   Database      ConnectionPool of src/database.h and .cpp, as steps of threads
--
-- How state is modelled. Dogs and sessions are reached by shared pointers from several places, so they
-- lie on heaps, which are lists, and a pointer is an address; a null pointer is `none`. Loot does not
-- change while it is shared and is held by value. A hash table is an association list. uint32_t wraps
-- around at 2^32; coordinates are integers without a bound. An exception is a value of `Result`, and
-- so is undefined behaviour (`undefined`): a null pointer read, an index out of range. What a
-- constructor leaves uninitialised, random draws and the clock are arguments. All loops are structural
-- recursion, so there is no fuel. What an exception leaves behind of a state is not modelled.
--
-- Not modelled: the threads, signals and environment of src/main.cpp; src/my_logger.cpp and all
-- logging; the sockets of src/http_server.h; the text of the file of saved state; the SQL of
-- src/database.cpp; the JSON of responses other than those of maps, and its text.
pub mod Base
pub mod Double
pub mod Json
pub mod Geom
pub mod Collision
pub mod LootGen
pub mod Model
pub mod Application
pub mod Serialization
pub mod Server
pub mod Handlers
pub mod Loader
pub mod RequestHandler
pub mod HttpServer
pub mod Database
pub mod Main
