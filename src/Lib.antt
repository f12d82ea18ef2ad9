-- ===== src/Lib.antt =====
-- dim keeps an index of the images of a docker registry and searches it. This library models its
-- server, its index, its commands and their output, its operations on images and its two clients.
--
-- The parts and how they interact. The server (server/) puts a filter in front of four handlers:
-- the search in the index, the notifications of the registry, the version, and a proxy to the
-- registry for everything else. A notification becomes a job that the index (lib/index/) takes: it
-- fetches the image from the registry, starts hooks and updates the documents of bleve. The client
-- (lib/dim.go) changes labels of images through the docker daemon; the registry client
-- (lib/registry/) walks through the images of a repository; cli/ prints tables of results and asks
-- for credentials; lib/utils/ holds the helpers that they share.
--
-- Which file models what:
--   Prelude.antt and below    tests on numbers and texts, lists, maps (Dict), errors and results,
--                             integers, state with errors (Exec), strings.Split/Contains/Join (Text)
--   Types.antt                lib/types.go
--   Utils.antt, Utils/        lib/utils/utils.go
--   Environment.antt          lib/environment/environment.go
--   Dim.antt, Dim/            lib/dim.go (AddLabel, RemoveLabel, AsIndexImage, ...)
--   Index/Hooks.antt          lib/index/config.go
--   Index/Config.antt         lib/index/config.go (Config, RegisterFunction)
--   Index/Image.antt          lib/index/image.go (Parse)
--   Index/Mapping.antt        lib/index/image.go (ImageMapping)
--   Index/Bleve.antt          what lib/index/ uses of bleve
--   Index/Query.antt          lib/index/index.go (BuildQuery)
--   Index/Documents.antt      lib/index/index.go (DocumentToImage)
--   Index/Store.antt          lib/index/index.go (SearchImages, FindImage, DeleteImage, GetImage, ...)
--   Index/Notifications.antt  lib/index/index.go (handleNotifications, triggerHooks)
--   Index/Loop.antt, Index/Loop/ lib/index/index.go (New, loop, handleNotifications in three goroutines)
--   Index/Service.antt        lib/index/index.go (Submit), the index as the server sees it
--   Registry/Repository.antt  lib/registry/repository.go (Image, ImageFromManifest, DeleteImage)
--   Registry/Walk.antt        lib/registry/repository.go (WalkImages)
--   Registry/Repositories.antt lib/registry/registry.go (WalkRepositories)
--   Registry/Client.antt      lib/registry/registry.go (Search, ServerVersion, PrintImageInfo, ...)
--   Registry/Connect.antt     lib/registry/registry.go (New, SilentNew, tryNew)
--   Wrapper/DockerClient.antt wrapper/dockerClient/dockerClient.go
--   Index/Build.antt          lib/index/index.go (Build)
--   System/                   the client's search, over HTTP, at the server (Search of both sides), AddLabel
--                             on the client of the daemon, and a notification up to the documents
--   Cmd/Names.antt            cmd/root.go (parseName, guessTag, readServerConfig)
--   Cmd/Root.antt             cmd/root.go (NewRootCommand), cmd/server.go (info, warn, error of hooks)
--   Cmd/Config.antt           cmd/root.go (readConfigHooks)
--   Cmd/Remote.antt           cmd/root.go (connectRegistry)
--   Cmd/Label.antt            cmd/label.go
--   Cmd/Delete.antt           cmd/delete.go
--   Cmd/Show.antt             cmd/show.go
--   Cmd/Version.antt          cmd/version.go and the exit code of main.go
--   Cmd/Password.antt         cmd/genpaswd.go
--   Cmd/Requests.antt         cmd/server.go and cmd/hooktest.go (sendRequest and its options)
--   Cmd/Hooktest.antt         cmd/hooktest.go (runHooktest)
--   Cmd/Serve.antt            cmd/server.go (runServer, handleSignal)
--   Cmd/Search.antt           cmd/search.go (the paging loop of runSearch)
--   Cmd/Search/               cmd/search.go (runSearch with its printers and outputs)
--   Server/Http.antt          what the handlers use of net/http: requests, responses, headers
--   Server/Config.antt        server/config.go (CompilePath, Applies)
--   Server/Middleware.antt    server/middleware.go (GetAuthorization, securityFilter, grantAccess)
--   Server/Handlers.antt      server/server.go (Version, NotifyImageChange, Search and the paths of NewServer)
--   Server/Listen.antt        server/server.go (NewServer, Run, RunSecure, handler)
--   Server/Proxy.antt         server/proxy.go (NewRegistryProxy, Forwards)
--   Cli/Format.antt           cli/tabprinter.go (format)
--   Cli/Widths.antt           cli/tabprinter.go (computeWidths)
--   Cli/Printer.antt          the loop that both printers share, and the terminal
--   Cli/TabPrinter.antt       cli/tabprinter.go (the printer and its options)
--   Cli/TemplatePrinter.antt  cli/template_printer.go
--   Cli/Credentials.antt      cli/cli.go (ReadCredentials and its prompts)
-- The theorems about a part stand in its Laws, or in a module named for what they prove.
--
-- How code becomes definitions. A Go function that returns an error is a function into `Result`,
-- which also has `panic` for an index out of range, a nil map or a division by 0. Calls that change
-- state are functions of that state (`Exec`, or a handler from a request, a response and a state).
-- Go's maps are association lists, with nil as `none` where the code tells it from an empty one. The
-- int of Go is ℤ, unbounded: the numbers are widths, offsets and sizes far below 2 ^ 63. Logging is
-- left out, but for the functions that hooks call. The goroutines of WalkImages, of Build and of loop are
-- step relations, in which any of them may take the next step: the variable that the workers of WalkImages
-- share without a lock is assigned and read in steps of its own. `logrus.Fatalln`, which ends the process, is a
-- `panic` too.
--
-- Loops are structural recursion on their lists. Those that have no bound of their own run on fuel:
-- the search command asks a server until it has seen as many results as were announced, for which one
-- more round than there are results is enough; the prompts for a login or a password go on until one is
-- accepted, for which a round or two more than were refused are enough; the walk through the repositories
-- asks until it has the last page, for which one request more than there are failures and names is enough. What is not under the
-- repository (regular expressions, SHA-256, JSON, the engine-api client of docker, bleve, the services
-- of the registry, net/http, the reverse proxy, text templates, viper)
-- is a parameter of the definitions that use it.
--
-- Not modelled: the set-up of the commands by cobra and viper, the completion script of the shell, and the
-- doubles that only the tests use.
pub mod Prelude
pub mod Types
pub mod Utils
pub mod Dim
pub mod Environment
pub mod Index
pub mod Registry
pub mod Server
pub mod System
pub mod Wrapper
pub mod Cli
pub mod Cmd
