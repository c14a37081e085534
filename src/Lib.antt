-- ===== src/Lib.antt =====
-- The AWS Global Accelerator controller: a Kubernetes controller that gives the load balancers of
-- services and ingresses an AWS Global Accelerator (with a listener and an endpoint group) and
-- Route 53 records, and keeps custom endpoint groups in step with load balancers.
--
-- Parts and files. A worker takes a key from a queue (Reconcile: pkg/reconcile/reconcile.go), finds
-- the object and calls a process function of a controller (Controller, Controller/Workers,
-- Controller/Accelerators, Controller/Records: pkg/controller/globalaccelerator and
-- pkg/controller/route53). That function reads the load balancer's name and region from its host name
-- (LoadBalancer: pkg/cloudprovider/provider.go and pkg/cloudprovider/aws/load_balancer.go) and calls
-- the cloud layer: pkg/cloudprovider/aws/global_accelerator.go is in Tags (owner, name and tags),
-- Listener (ports and protocol), Accelerator, Endpoint (single requests) and GlobalAccelerator
-- (lookup, creation, update, cleanup); pkg/cloudprovider/aws/route53.go is in Route53.
-- Controller/Notify has the informer handlers of both controllers. Binding is
-- pkg/controller/endpointgroupbinding, Webhook is pkg/webhoook. Apis has pkg/apis and the fields of
-- Kubernetes objects that are read, Apis/DeepCopy the generated deep copies of a binding on a heap of
-- cells; Errors has pkg/errors. Process is the program around them:
-- Command has the flags (cmd), Controllers the constructors of the three controllers, Run their
-- `Run`, and System the manager (pkg/manager), the lease (pkg/leaderelection) and the signals
-- (pkg/signals). Informers is the factory of the informers for bindings
-- (pkg/client/informers/externalversions/factory.go).
--
-- Cloud has the requests, their answers, and the rules to reason about code that sends them, among
-- them Cloud/Bounds on how many it sends. Orderly follows three invariants of the log of requests
-- through the accelerator controller; Route53/Guarded is one for the Route 53 controller, and
-- Binding/Ledger says what a round for a binding may write, from the log. Prelude has Go's strings,
-- slices and maps. Tests has examples.
--
-- Names are the source's in snake case: `EnsureGlobalAcceleratorForService` is
-- `ensure_global_accelerator_for_service`. A function that calls AWS or Kubernetes is a function of
-- the state (Cloud/Exec): the world, which only the service reads, and the log of all requests with
-- their answers, the newest first. The service is a parameter: any function from a request and a
-- world to an answer of that request's type and a world. A call returns, returns an error, or panics;
-- what was requested before stays in each case. A nil pointer that is used and an index that is out
-- of range are panics.
--
-- The process is a state with a step for each event: a signal, the lease got or lost, the informers
-- started, a cache filled, a step of one controller's `Run`, the end of the manager's wait. The events
-- come in any order, and one that cannot happen in a state changes nothing. The number of workers is a
-- parameter, and so is the order in which the manager ranges over its map of controllers.
--
-- Bounds and fuel. `wait.Poll` of `deleteAccelerator` runs its condition at most `attempts` times, a
-- parameter (18 for 10 seconds in 3 minutes). `GetHostedZone` runs on fuel, two rounds more than the
-- host name has bytes, where each round takes a label off. Ports are converted to int32 modulo 2^32.
-- A Go map is an association list; where the order of a map's iteration can be seen, that order is a
-- parameter. A paginator is one event of the log, with its pages up to the last one or the first
-- error; it counts for as many requests as it has pages.
--
-- Not modelled: log lines; the parsing of flags and the version command; how clients are built; the
-- timing of the lease; the HTTP server; the rest of the generated code (in pkg/client, and the deep
-- copies of lists); end-to-end tests. The AWS SDK, client-go and encoding/json are parameters.
pub mod Prelude
pub mod Process
pub mod Errors
pub mod Apis
pub mod Tags
pub mod LoadBalancer
pub mod Informers
pub mod Listener
pub mod Cloud
pub mod Accelerator
pub mod Endpoint
pub mod GlobalAccelerator
pub mod Route53
pub mod Reconcile
pub mod Webhook
pub mod Controller
pub mod Binding
pub mod Orderly
pub mod Tests
